-- ===== src/Scylla/Aont/RoundTrip.antt =====
-- `aont_inv` undoes `aont`.
use fragging.Common.{
  ℕ, suc, map, ◌+◌, ◌<◌, ◌≤◌, ◌≡◌, refl, sym, ap, ap₂, ◌∙◌, List, [], ◌∷◌, ◌++◌, length, drop,
  Outcome, ok, ◌>>=◌, xor, length-xor, xor_cancel, length-drop, flatten, arith, slice-append,
  slice_from-append, length-append,
}
use fragging.Scylla.Primitives.{Primitives, IsLawful, Bytes}
use fragging.Scylla.Crypto.{Error, kappa}
use fragging.Scylla.Aont.{sum_lengths, mask_fragments, tag_first, aont, aont_inv}

-- A fragment that the mask covers keeps its length.
length-masked :
    (f mask : Bytes) (used : ℕ)
    → used + length f ≤ length mask
    → length (xor f (drop used mask)) ≡ length f
length-masked f mask used h = omega (arith, length-xor f (drop used mask), length-drop used mask)

sum_lengths-mask_fragments :
    (mask : Bytes) (used : ℕ) (fs : List Bytes)
    → used + sum_lengths fs ≤ length mask
    → sum_lengths (mask_fragments mask used fs) ≡ sum_lengths fs
unfolding mask_fragments
sum_lengths-mask_fragments mask used [] h = refl
sum_lengths-mask_fragments mask used (f ∷ fs) h =
    let same = length-masked f mask used (omega arith) in
    omega (
      arith,
      same,
      sum_lengths-mask_fragments mask (used + length (xor f (drop used mask))) fs
          (omega (arith, same)),
    )

pub length-mask_fragments :
    (mask : Bytes) (used : ℕ) (fs : List Bytes) → length (mask_fragments mask used fs) ≡ length fs
unfolding mask_fragments
length-mask_fragments mask used [] = refl
length-mask_fragments mask used (f ∷ fs) =
    ap suc (length-mask_fragments mask (used + length (xor f (drop used mask))) fs)

pub map-length-mask_fragments :
    (mask : Bytes) (used : ℕ) (fs : List Bytes)
    → used + sum_lengths fs ≤ length mask
    → map length (mask_fragments mask used fs) ≡ map length fs
unfolding mask_fragments
map-length-mask_fragments mask used [] h = refl
map-length-mask_fragments mask used (f ∷ fs) h =
    let same = length-masked f mask used (omega arith) in
    ap₂ ◌∷◌ same (
      map-length-mask_fragments mask (used + length (xor f (drop used mask))) fs
        (omega (arith, same)))

-- Masking twice gives the fragments back.
mask_fragments_cancel :
    (mask : Bytes) (used : ℕ) (fs : List Bytes)
    → used + sum_lengths fs ≤ length mask
    → mask_fragments mask used (mask_fragments mask used fs) ≡ fs
unfolding mask_fragments
mask_fragments_cancel mask used [] h = refl
mask_fragments_cancel mask used (f ∷ fs) h =
    let masked = xor f (drop used mask) in
    let same : length masked ≡ length f = length-masked f mask used (omega arith) in
    let back : xor masked (drop used mask) ≡ f =
      xor_cancel f (drop used mask) (omega (arith, length-drop used mask)) in
    ap₂ ◌∷◌ back (
      ap (λ (n : ℕ). mask_fragments mask (used + n) (mask_fragments mask (used + length masked) fs))
        (ap length back ∙ sym same)
      ∙ mask_fragments_cancel mask (used + length masked) fs (omega (arith, same)))

tag_first-lengths :
    (t : Bytes) (ms : List Bytes) (n : ℕ) (ns : List ℕ)
    → map length ms ≡ n ∷ ns
    → (out : List Bytes) × (tag_first t ms ≡ ok out) × (map length out ≡ (length t + n) ∷ ns)
unfolding tag_first
tag_first-lengths t [] n ns e = absurd (cc)
tag_first-lengths t (m ∷ ms) n ns e =
    let first : length m ≡ n = cc in
    let others : map length ms ≡ ns = cc in
    ((t ++ m) ∷ ms, refl, ap₂ ◌∷◌ (omega (arith, length-append t m)) others)

-- `out` has these lengths, and `aont_inv` makes `fragments` of it.
pub record IsTransformed ⦃p : Primitives⦄ (fragments : List Bytes) (sizes : List ℕ)
    (result : Outcome Error (List Bytes)) : Type 0 where
  pub out : List Bytes
  pub returns : result ≡ ok out
  pub lengths : map length out ≡ sizes
  pub inverse : aont_inv out ≡ ok fragments

module _ ⦃p : Primitives⦄ (laws : IsLawful p) where
  open p use {sha256, shake128}

  -- `aont_inv` on fragments whose first begins with a tag of `KAPPA` bytes.
  aont_inv-cons :
      (t first : Bytes) (rest : List Bytes)
      → length t ≡ kappa
      → aont_inv ((t ++ first) ∷ rest) ≡ (
          let randomness = xor t (sha256 (flatten (first ∷ rest))) in
          ok (mask_fragments (shake128 randomness (sum_lengths (first ∷ rest))) 0 (first ∷ rest)))
  unfolding aont_inv
  aont_inv-cons t first rest h =
      rw
        (slice-append 0 kappa [] t first refl (omega (arith, h)), slice_from-append kappa t first h)
        (ap
          (λ (n : ℕ).
            ok (
              mask_fragments (shake128 (xor t (sha256 (first ++ flatten rest))) n) 0
                (first ∷ rest)))
          (omega (arith, length-append t first)))

  -- Tagging fragments and inverting recovers the randomness, so the mask is the same.
  retag :
      (randomness : Bytes) (ms : List Bytes)
      → length randomness ≡ kappa
      → 0 < length ms
      → (tag_first (xor randomness (sha256 (flatten ms))) ms >>= aont_inv)
        ≡ ok (mask_fragments (shake128 randomness (sum_lengths ms)) 0 ms)
  unfolding tag_first
  retag randomness [] h k = absurd (omega arith)
  retag randomness (m ∷ ms) h k =
      let digest = sha256 (flatten (m ∷ ms)) in
      let long : length digest ≡ 32 = laws.length-sha256 (flatten (m ∷ ms)) in
      aont_inv-cons (xor randomness digest) m ms (omega (arith, length-xor randomness digest))
      ∙ ap (λ r. ok (mask_fragments (shake128 r (sum_lengths (m ∷ ms))) 0 (m ∷ ms)))
          (xor_cancel randomness digest (omega arith))

  -- `aont` succeeds: the fragments keep their number and lengths, but for the tag of `KAPPA` bytes
  -- before the first, and `aont_inv` gives them back.
  pub aont-IsTransformed :
      (randomness first : Bytes) (rest : List Bytes)
      → length randomness ≡ kappa
      → IsTransformed
          (first ∷ rest)
          ((kappa + length first) ∷ map length rest)
          (aont randomness (first ∷ rest))
  unfolding aont
  aont-IsTransformed randomness first rest h =
      let fs = first ∷ rest in
      let mask = shake128 randomness (sum_lengths fs) in
      let ms = mask_fragments mask 0 fs in
      let covered : 0 + sum_lengths fs ≤ length mask =
        omega (arith, laws.length-shake128 randomness (sum_lengths fs)) in
      let digest = sha256 (flatten ms) in
      let long : length digest ≡ 32 = laws.length-sha256 (flatten ms) in
      let (out, tagged, sizes) =
        tag_first-lengths (xor randomness digest) ms (length first) (map length rest)
          (map-length-mask_fragments mask 0 fs covered) in
      record {
        out = out;
        returns = tagged;
        lengths =
            sizes
            ∙ ap (λ (n : ℕ). (n + length first) ∷ map length rest)
                (omega (arith, length-xor randomness digest));
        inverse =
            ap (λ m. m >>= aont_inv) (sym tagged)
            ∙ retag randomness ms h (omega (arith, length-mask_fragments mask 0 fs))
            ∙ ap (λ (n : ℕ). ok (mask_fragments (shake128 randomness n) 0 ms))
                (sum_lengths-mask_fragments mask 0 fs covered)
            ∙ ap ok (mask_fragments_cancel mask 0 fs covered);
      }
