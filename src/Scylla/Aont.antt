-- ===== src/Scylla/Aont.antt =====
-- The all-or-nothing transform of scylla/src/lib.rs: `aont`, `aont_inv`.
pub mod RoundTrip
use fragging.Common.{
  ℕ, ◌+◌, ◌-◌, List, [], ◌∷◌, ◌++◌, length, drop, Outcome, ok, panic, slice, slice_from, ◌>>=◌, xor,
  flatten,
}
use fragging.Scylla.Primitives.{Primitives, Bytes}
use fragging.Scylla.Crypto.{Error, kappa}

-- `fragments.iter().map(|x| x.len()).sum()`
abbrev pub sum_lengths : List Bytes → ℕ
sum_lengths [] = 0
sum_lengths (f ∷ fs) = length f + sum_lengths fs

-- The loop of both functions: each fragment is masked with the bytes after `used_length`.
pub mask_fragments : Bytes → ℕ → List Bytes → List Bytes
mask_fragments mask used_length [] = []
mask_fragments mask used_length (f ∷ fs) =
    let fragment = xor f (drop used_length mask) in
    fragment ∷ mask_fragments mask (used_length + length fragment) fs

-- `new_fragments[0] = concat(t, &new_fragments[0])`
pub tag_first : Bytes → List Bytes → Outcome Error (List Bytes)
tag_first t [] = panic
tag_first t (first ∷ rest) = ok ((t ++ first) ∷ rest)

module _ ⦃p : Primitives⦄ where
  open p use {sha256, shake128}

  -- `randomness` is what the generator draws. The hash is fed fragment after fragment.
  pub aont : Bytes → List Bytes → Outcome Error (List Bytes)
  aont randomness fragments =
      let message_length = sum_lengths fragments in
      let mask = shake128 randomness message_length in
      let new_fragments = mask_fragments mask 0 fragments in
      let t = xor randomness (sha256 (flatten new_fragments)) in tag_first t new_fragments

  -- Draining the first `KAPPA` bytes panics if there are fewer.
  pub aont_inv : List Bytes → Outcome Error (List Bytes)
  aont_inv [] = panic
  aont_inv (first ∷ rest) = do
    t ← slice 0 kappa first
    first' ← slice_from kappa first
    let new_fragments = first' ∷ rest
    let randomness = xor t (sha256 (flatten new_fragments))
    let message_length = sum_lengths (first ∷ rest) - kappa
    ok (mask_fragments (shake128 randomness message_length) 0 new_fragments)
