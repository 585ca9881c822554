-- ===== src/Sphinx/Surb/Codec.antt =====
-- The bytes of a reply block of sphinx-benchmarks/src/surb/mod.rs, written and read.
use fragging.Common.{
  ℕ, ◌+◌, ◌*◌, ◌/◌, ◌%◌, ◌≤◌, ◌≡◌, refl, sym, ap, ◌∙◌, List, [], ◌∷◌, ◌++◌, append_assoc, length,
  length-append, flatten, ok, not_lt→ltb, eq→==, slice_from, slice-append, slice_from-append, arith,
}
use fragging.Sphinx.Constants.{Bytes, ErrorKind, node_address_length}
use fragging.Sphinx.Keys.{payload_key_size}
use fragging.Sphinx.Payload.Layers.{AllKeys}
use fragging.Sphinx.Route.NodeAddress.{try_from_byte_slice-ok}
use fragging.Sphinx.Header.{header_size, to_bytes as header_to_bytes}
use fragging.Sphinx.Header.Codec.{IsSized, length-to_bytes, from_bytes-to_bytes}
use fragging.Sphinx.Surb.{Surb, to_bytes, from_bytes, read_keys}

length-flatten :
    (keys : List Bytes) → AllKeys keys → length (flatten keys) ≡ length keys * payload_key_size
length-flatten [] h = refl
length-flatten (key ∷ keys) h =
    length-append key (flatten keys) ∙ omega (arith, h.0, length-flatten keys h.1)

read_keys-flatten :
    (keys : List Bytes) (i : ℕ) (before : Bytes)
    → AllKeys keys
    → length before ≡ i * payload_key_size
    → read_keys i (length keys) (before ++ flatten keys) ≡ ok keys
unfolding read_keys
read_keys-flatten [] i before h at = refl
read_keys-flatten (key ∷ keys) i before h at =
    let cut =
      slice-append {E = ErrorKind} (i * payload_key_size) ((i + 1) * payload_key_size) before key
        (flatten keys) at (omega (arith, h.0)) in
    let rest =
      read_keys-flatten keys (i + 1) (before ++ key) h.1
        (length-append before key ∙ omega (arith, at, h.0)) in
    rw
      (
        cut,
        ap (read_keys (i + 1) (length keys)) (sym (append_assoc before key (flatten keys))),
        rest,
      )
      refl

-- A block with a header of the proper sizes, an address of 32 bytes, and one or more keys of 192 bytes
-- each, is read back from its bytes.
pub surb_from_bytes-to_bytes :
    (m : ℕ) (surb : Surb)
    → IsSized m surb.surb_header
    → length surb.first_hop_address ≡ node_address_length
    → 1 ≤ length surb.payload_keys
    → AllKeys surb.payload_keys
    → from_bytes m (to_bytes surb) ≡ ok surb
unfolding from_bytes to_bytes
surb_from_bytes-to_bytes m surb sized address enough keys =
    let front = header_to_bytes surb.surb_header in
    let first = surb.first_hop_address in
    let tail = flatten surb.payload_keys in
    let count = length surb.payload_keys in
    let front_length = length-to_bytes m surb.surb_header sized in
    let tail_length : length tail ≡ count * payload_key_size =
      length-flatten surb.payload_keys keys in
    let all_length : length (front ++ (first ++ tail))
        ≡ header_size m + (node_address_length + length tail) =
      length-append front (first ++ tail)
      ∙ omega (arith, length-append first tail, front_length, address) in
    let behind : length (front ++ first) ≡ header_size m + node_address_length =
      length-append front first ∙ omega (arith, front_length, address) in
    let tail_bytes : slice_from {E = ErrorKind} (header_size m + node_address_length)
          (front ++ (first ++ tail))
        ≡ ok tail =
      ap (slice_from (header_size m + node_address_length)) (sym (append_assoc front first tail))
      ∙ slice_from-append (header_size m + node_address_length) (front ++ first) tail behind in
    rw
      (
        not_lt→ltb (length (front ++ (first ++ tail)))
            (header_size m + node_address_length + payload_key_size)
            (omega (arith, all_length, tail_length)),
        slice-append {E = ErrorKind} 0 (header_size m) [] front (first ++ tail) refl (omega arith),
        slice-append {E = ErrorKind} (header_size m) (header_size m + node_address_length) front
            first tail front_length (omega (arith, address)),
        tail_bytes,
        eq→== (length tail % payload_key_size) 0 (omega (arith, tail_length)),
        from_bytes-to_bytes m surb.surb_header sized,
        try_from_byte_slice-ok first address,
        ap (λ (n : ℕ). read_keys 0 n tail) (whole tail_length),
        read_keys-flatten surb.payload_keys 0 [] keys refl,
      )
      refl
  where
    whole : {n count : ℕ} → n ≡ count * payload_key_size → n / payload_key_size ≡ count
    whole h = omega arith
