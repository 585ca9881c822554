-- ===== src/Sphinx/Header/Codec.antt =====
-- The bytes of a header of sphinx-benchmarks/src/header/mod.rs, written and read.
use fragging.Common.{
  ℕ, ◌+◌, ◌-◌, ◌≤◌, ◌≡◌, refl, sym, ap, ap₂, ◌∙◌, [], ◌++◌, append-nil, length, length-append, take,
  drop, take-append-drop, length-drop, take-append, arith, ok, ◌==◌, eq→==, ==→eq, ensure-eq-ok,
  slice, slice_le, slice_prefix, slice-append, >>=-eq-ok,
}
use fragging.Sphinx.Constants.{
  Bytes, ErrorKind, invalid_header, invalid_routing, header_integrity_mac_size,
}
use fragging.Sphinx.Routing.{
  EncapsulatedRoutingInformation, encrypted_routing_info_size, to_bytes as routing_to_bytes,
  from_bytes as routing_from_bytes,
}
use fragging.Sphinx.Header.{SphinxHeader, header_size, to_bytes, from_bytes}

-- The sizes that the array types of a header promise.
pub record IsSized (m : ℕ) (header : SphinxHeader) : Type 0 where
  pub secret_length : length header.shared_secret ≡ 32
  pub mac_length : length header.routing_info.integrity_mac ≡ header_integrity_mac_size
  pub info_length :
      length header.routing_info.enc_routing_information ≡ encrypted_routing_info_size m

-- The last part of a concatenation.
slice-append_end :
    (i j : ℕ) (xs ys : Bytes)
    → length xs ≡ i
    → i + length ys ≡ j
    → slice {E = ErrorKind} i j (xs ++ ys) ≡ ok ys
slice-append_end i j xs ys h k =
    ap (λ t. slice i j (xs ++ t)) (sym (append-nil ys)) ∙ slice-append i j xs ys [] h k

routing_from_bytes-to_bytes :
    (m : ℕ) (info : EncapsulatedRoutingInformation)
    → length info.integrity_mac ≡ header_integrity_mac_size
    → length info.enc_routing_information ≡ encrypted_routing_info_size m
    → routing_from_bytes m (routing_to_bytes info) ≡ ok info
unfolding routing_from_bytes routing_to_bytes
routing_from_bytes-to_bytes m info h k =
    let mac = info.integrity_mac in
    let enc = info.enc_routing_information in
    rw
      (
        eq→== (length (mac ++ enc)) (header_integrity_mac_size + encrypted_routing_info_size m)
            (omega (arith, length-append mac enc)),
        slice-append {E = ErrorKind} 0 header_integrity_mac_size [] mac enc refl (omega arith),
        slice-append_end header_integrity_mac_size
            (header_integrity_mac_size + encrypted_routing_info_size m) mac enc h (omega arith),
      )
      refl

length-routing_to_bytes :
    (info : EncapsulatedRoutingInformation)
    → length (routing_to_bytes info)
      ≡ length info.integrity_mac + length info.enc_routing_information
unfolding routing_to_bytes
length-routing_to_bytes info = length-append info.integrity_mac info.enc_routing_information

pub length-to_bytes :
    (m : ℕ) (header : SphinxHeader) → IsSized m header → length (to_bytes header) ≡ header_size m
unfolding to_bytes
length-to_bytes m header s =
    length-append header.shared_secret (routing_to_bytes header.routing_info)
    ∙ omega (
      arith,
      length-routing_to_bytes header.routing_info,
      s.secret_length,
      s.mac_length,
      s.info_length,
    )

-- A header with a secret of 32 bytes, a MAC of 16 and routing information of 60 bytes for each of `m`
-- hops is read back from its bytes.
pub from_bytes-to_bytes :
    (m : ℕ) (header : SphinxHeader) → IsSized m header → from_bytes m (to_bytes header) ≡ ok header
unfolding from_bytes to_bytes
from_bytes-to_bytes m header s =
    let secret = header.shared_secret in
    let rest = routing_to_bytes header.routing_info in
    let rest_length : length rest ≡ header_integrity_mac_size + encrypted_routing_info_size m =
      length-routing_to_bytes header.routing_info ∙ omega (arith, s.mac_length, s.info_length) in
    rw
      (
        eq→== (length (secret ++ rest)) (header_size m)
            (omega (arith, s.secret_length, length-append secret rest)),
        slice-append {E = ErrorKind} 0 32 [] secret rest refl (omega (arith, s.secret_length)),
        slice-append_end 32 (header_size m) secret rest s.secret_length (omega arith),
        routing_from_bytes-to_bytes m header.routing_info s.mac_length s.info_length,
      )
      refl

-- Cutting all the bytes in two and reading both parts loses nothing.
rejoin :
    (i n : ℕ) (bs first rest : Bytes)
    → i ≤ n
    → length bs ≡ n
    → slice {E = ErrorKind} 0 i bs ≡ ok first
    → slice {E = ErrorKind} i n bs ≡ ok rest
    → first ++ rest ≡ bs
rejoin i n bs first rest h k e f =
    let front = sym e ∙ slice_prefix {E = ErrorKind} i bs (omega arith) in
    let back = sym f ∙ slice_le {E = ErrorKind} i n bs h (omega arith) in
    let whole : take (n - i) (drop i bs) ≡ drop i bs =
      ap (take (n - i)) (sym (append-nil (drop i bs)))
      ∙ take-append (n - i) (drop i bs) [] (omega (arith, length-drop i bs)) in
    let one : first ≡ take i bs = cc in
    let two : rest ≡ take (n - i) (drop i bs) = cc in
    ap₂ ◌++◌ one (two ∙ whole) ∙ take-append-drop i bs

routing_to_bytes-from_bytes :
    (m : ℕ) (bs : Bytes) (info : EncapsulatedRoutingInformation)
    → routing_from_bytes m bs ≡ ok info
    → routing_to_bytes info ≡ bs
unfolding routing_from_bytes routing_to_bytes
routing_to_bytes-from_bytes m bs info h =
    let n : ℕ = header_integrity_mac_size + encrypted_routing_info_size m in
    let (sized, h1) = ensure-eq-ok (length bs == n) invalid_routing _ h in
    let (mac, first, h2) = >>=-eq-ok (slice 0 header_integrity_mac_size bs) _ h1 in
    let (enc, second, done) = >>=-eq-ok (slice header_integrity_mac_size n bs) _ h2 in
    let same : record { enc_routing_information = enc; integrity_mac = mac } ≡ info = cc in
    ap routing_to_bytes (sym same)
    ∙ rejoin header_integrity_mac_size n bs mac enc (omega arith) (==→eq (length bs) n sized) first
        second

-- A header that `from_bytes` reads is written back as the same bytes.
pub to_bytes-from_bytes :
    (m : ℕ) (bs : Bytes) (header : SphinxHeader)
    → from_bytes m bs ≡ ok header
    → to_bytes header ≡ bs
unfolding from_bytes to_bytes
to_bytes-from_bytes m bs header h =
    let n : ℕ = header_size m in
    let (sized, h1) = ensure-eq-ok (length bs == n) invalid_header _ h in
    let (secret, first, h2) = >>=-eq-ok (slice 0 32 bs) _ h1 in
    let (rest, second, h3) = >>=-eq-ok (slice 32 n bs) _ h2 in
    let (info, read, done) = >>=-eq-ok (routing_from_bytes m rest) _ h3 in
    let same : record { shared_secret = secret; routing_info = info } ≡ header = cc in
    ap to_bytes (sym same)
    ∙ ap (λ t. secret ++ t) (routing_to_bytes-from_bytes m rest info read)
    ∙ rejoin 32 n bs secret rest (omega arith) (==→eq (length bs) n sized) first second
