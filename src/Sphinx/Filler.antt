-- ===== src/Sphinx/Filler.antt =====
-- The filler string of sphinx-benchmarks/src/header/filler.rs, over the stream of crypto/mod.rs.
use fragging.Common.{
  ℕ, ◌+◌, ◌-◌, ◌*◌, ◌≤◌, ◌≡◌, refl, ◌∙◌, List, [], ◌∷◌, ◌++◌, length, drop, replicate, arith,
  length-append, length-replicate, length-drop, ok, assert, slice_from, slice_from_le, ◌>>=◌, ◌>>◌,
  leb, le→leb, ◌==◌, eq→==, xor, length-xor,
}
use fragging.Sphinx.Constants.{
  Bytes, Result, ErrorKind, stream_cipher_output_length, filler_step_size_increase, xor_exact,
}
use fragging.Sphinx.Externals.{Externals, IsLawful}
use fragging.Sphinx.Keys.{RoutingKeys}

abbrev pub stream_cipher_init_vector : Bytes
stream_cipher_init_vector = replicate 16 0

module _ ⦃x : Externals⦄ where
  unfoldable pub generate_pseudorandom_bytes : Bytes → Bytes → ℕ → Bytes
  generate_pseudorandom_bytes key iv n = x.apply_keystream key iv (replicate n 0)

  -- One step, for a header of `max_path_length` hops.
  unfoldable pub filler_step : ℕ → Bytes → ℕ → Bytes → Result Bytes
  filler_step max_path_length filler_string_accumulator i pseudorandom_bytes = do
    assert (length pseudorandom_bytes == stream_cipher_output_length max_path_length)
    assert (length filler_string_accumulator == filler_step_size_increase * (i - 1))
    let extended = filler_string_accumulator ++ replicate filler_step_size_increase 0
    assert (leb (i * filler_step_size_increase) (length pseudorandom_bytes))
    mask ← slice_from (length pseudorandom_bytes - i * filler_step_size_increase) pseudorandom_bytes
    xor_exact extended mask

  -- The fold over the keys, at index `i` of the enumeration.
  unfoldable pub filler_fold : ℕ → Bytes → ℕ → List RoutingKeys → Result Bytes
  filler_fold max_path_length accumulator i [] = ok accumulator
  filler_fold max_path_length accumulator i (keys ∷ rest) = do
    next ← filler_step max_path_length accumulator (i + 1) (
        generate_pseudorandom_bytes keys.stream_cipher_key stream_cipher_init_vector
          (stream_cipher_output_length max_path_length))
    filler_fold max_path_length next (i + 1) rest

  -- `Filler::new`
  unfoldable pub new_filler : ℕ → List RoutingKeys → Result Bytes
  new_filler max_path_length routing_keys = do
    assert (leb (length routing_keys) max_path_length)
    filler_fold max_path_length [] 0 routing_keys

module _ ⦃x : Externals⦄ (laws : IsLawful x) where
  pub length-generate : (key iv : Bytes) (n : ℕ) → length (generate_pseudorandom_bytes key iv n) ≡ n
  unfolding generate_pseudorandom_bytes
  length-generate key iv n =
      laws.length-apply_keystream key iv (replicate n 0) ∙ length-replicate n 0

  step-ok :
      (max_len : ℕ) (acc : Bytes) (i : ℕ) (stream : Bytes)
      → i ≤ max_len
      → length acc ≡ filler_step_size_increase * i
      → length stream ≡ stream_cipher_output_length max_len
      → (out : Bytes) × (filler_step max_len acc (i + 1) stream ≡ ok out)
        × (length out ≡ filler_step_size_increase * (i + 1))
  unfolding filler_step xor_exact
  step-ok max_len acc i stream fits same long =
      let extended : Bytes = acc ++ replicate filler_step_size_increase 0 in
      let at : ℕ = length stream - (i + 1) * filler_step_size_increase in
      let mask = drop at stream in
      let mask_length : length mask ≡ length stream - at = length-drop at stream in
      let extended_length = length-append acc (replicate filler_step_size_increase 0) in
      let pad_length = length-replicate {A = ℕ} filler_step_size_increase 0 in
      (
        xor extended mask,
        rw
            (
              eq→== (length stream) (stream_cipher_output_length max_len) long,
              eq→== (length acc) (filler_step_size_increase * (i + 1 - 1)) (omega arith),
              le→leb ((i + 1) * filler_step_size_increase) (length stream) (omega arith),
              slice_from_le {E = ErrorKind} at stream (omega arith),
              eq→== (length extended) (length mask) (omega arith),
            )
            refl,
        omega (arith, length-xor extended mask),
      )

  fold-ok :
      (max_len : ℕ) (acc : Bytes) (i : ℕ) (keys : List RoutingKeys)
      → i + length keys ≤ max_len
      → length acc ≡ filler_step_size_increase * i
      → (out : Bytes) × (filler_fold max_len acc i keys ≡ ok out)
        × (length out ≡ filler_step_size_increase * (i + length keys))
  unfolding filler_fold
  fold-ok max_len acc i [] fits same = (acc, refl, omega arith)
  fold-ok max_len acc i (k ∷ keys) fits same =
      let stream =
        generate_pseudorandom_bytes k.stream_cipher_key stream_cipher_init_vector
          (stream_cipher_output_length max_len) in
      let (next, stepped, next_length) = step-ok max_len acc i stream (omega arith) same (
        length-generate k.stream_cipher_key stream_cipher_init_vector
          (stream_cipher_output_length max_len)) in
      let (out, folded, out_length) = fold-ok max_len next (i + 1) keys (omega arith) next_length in
      (out, rw stepped folded, omega arith)

  -- For at most `max_path_length` keys `Filler::new` succeeds: none of the assertions of its steps
  -- fails, and the filler has a step's bytes for each key.
  pub length-new_filler :
      (max_len : ℕ) (keys : List RoutingKeys)
      → length keys ≤ max_len
      → (filler : Bytes) × (new_filler max_len keys ≡ ok filler)
        × (length filler ≡ filler_step_size_increase * length keys)
  unfolding new_filler
  length-new_filler max_len keys fits =
      let (out, folded, size) = fold-ok max_len [] 0 keys (omega arith) (omega arith) in
      (out, rw (le→leb (length keys) max_len fits) folded, omega arith)
