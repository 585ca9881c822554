-- ===== src/Sphinx/Header/Checks.antt =====
-- What the two ways of processing a header of sphinx-benchmarks/src/header/mod.rs refuse, and where
-- they agree.
use fragging.Common.{
  ℕ, ◌≡◌, ◌↔◌, refl, ok, err, panic, Bool, true, false, Option, some, ensure, take, length, arith,
  le→leb, ◌>>=◌, ◌>>◌, bytes_eq, bytes_eq-differ,
}
use fragging.Sphinx.Constants.{Bytes, Result, ErrorKind, invalid_header, header_integrity_mac_size}
use fragging.Sphinx.Externals.{Externals, IsLawful}
use fragging.Sphinx.Keys.{RoutingKeys, compute_routing_keys, blind_the_shared_secret}
use fragging.Sphinx.Routing.{
  ParsedRawRoutingInformation, forward_hop, final_hop, compute_mac, verify_mac, unwrap_routing,
}
use fragging.Sphinx.Header.{
  SphinxHeader, ProcessedHeader, unwrap_result, finish_with, finish, process,
  process_with_derived_keys,
}

-- Behind the same check, a panic in the place of an error changes no successful result.
same_ok :
    {A B : Type 0} (valid : Result Bool) (kind : ErrorKind) (parsed : Result A)
    (go other : A → Result B) (r : B)
    → ((a : A) → go a ≡ other a)
    → ((valid >>= λ v. ensure v kind >> (parsed >>= go)) ≡ ok r)
      ↔ ((valid >>= λ v. ensure v kind >> (unwrap_result parsed >>= other)) ≡ ok r)
same_ok valid kind (ok a) go other r same = rw (same a) (λ h. h, λ h. h)
same_ok (ok true) kind (err e) go other r same =
    (λ h. absurd (let e : err e ≡ ok r = h in cc), λ h. absurd (let e : panic ≡ ok r = h in cc))
same_ok (ok false) kind (err e) go other r same = (λ h. h, λ h. h)
same_ok (err e') kind (err e) go other r same = (λ h. h, λ h. h)
same_ok panic kind (err e) go other r same = (λ h. h, λ h. h)
same_ok valid kind panic go other r same = (λ h. h, λ h. h)

module _ ⦃x : Externals⦄ where
  open x use {Scalar}

  -- The two matches on what was parsed agree.
  finish-finish_with :
      (shared_secret : Bytes) (keys : RoutingKeys) (parsed : ParsedRawRoutingInformation)
      → ok (finish shared_secret keys parsed)
        ≡ finish_with
            (some (blind_the_shared_secret shared_secret keys.blinding_factor))
            keys.payload_key
            parsed
  finish-finish_with shared_secret keys (forward_hop address delay info) = refl
  finish-finish_with shared_secret keys (final_hop destination identifier) = refl

  -- With the keys and the blinded secret that `process` computes, `process_with_derived_keys` returns a
  -- result exactly when `process` returns it.
  pub process-process_with_derived_keys :
      (m : ℕ) (header : SphinxHeader) (node_secret_key : Scalar) (keys : RoutingKeys)
      (r : ProcessedHeader)
      → compute_routing_keys header.shared_secret node_secret_key ≡ ok keys
      → (process m header node_secret_key ≡ ok r) ↔ (
          process_with_derived_keys m header
            (some (blind_the_shared_secret header.shared_secret keys.blinding_factor))
            keys
          ≡ ok r)
  unfolding process process_with_derived_keys
  process-process_with_derived_keys m header node_secret_key keys r h =
      let info = header.routing_info in
      rw h (
        same_ok
          (verify_mac info.integrity_mac keys.header_integrity_hmac_key
            info.enc_routing_information)
          invalid_header (unwrap_routing m info.enc_routing_information keys.stream_cipher_key)
          (λ parsed. ok (finish header.shared_secret keys parsed))
          (finish_with (some (blind_the_shared_secret header.shared_secret keys.blinding_factor))
            keys.payload_key)
          r (finish-finish_with header.shared_secret keys))

module _ ⦃x : Externals⦄ (laws : IsLawful x) where
  open x use {Scalar, hmac}

  pub verify_mac-eq :
      (mac key text : Bytes)
      → verify_mac mac key text ≡ ok (bytes_eq mac (take header_integrity_mac_size (hmac key text)))
  unfolding verify_mac compute_mac
  verify_mac-eq mac key text =
      rw
        (le→leb header_integrity_mac_size (length (hmac key text))
          (omega (arith, laws.length-hmac key text)))
        refl

  -- A header whose MAC is not that of its routing information under the node's key: both ways of
  -- processing fail with `invalid_header`, whatever the routing information holds.
  pub process-invalid_mac :
      (m : ℕ) (header : SphinxHeader) (node_secret_key : Scalar) (keys : RoutingKeys)
      (secret : Option Bytes)
      → compute_routing_keys header.shared_secret node_secret_key ≡ ok keys
      → ¬ (
          header.routing_info.integrity_mac
          ≡ take header_integrity_mac_size
              (hmac keys.header_integrity_hmac_key header.routing_info.enc_routing_information))
      → (process m header node_secret_key ≡ err invalid_header)
        × (process_with_derived_keys m header secret keys ≡ err invalid_header)
  unfolding process process_with_derived_keys
  process-invalid_mac m header node_secret_key keys secret h differ =
      let info = header.routing_info in
      let checked =
        verify_mac-eq info.integrity_mac keys.header_integrity_hmac_key
          info.enc_routing_information in
      let refused =
        bytes_eq-differ info.integrity_mac
          (take header_integrity_mac_size
            (hmac keys.header_integrity_hmac_key info.enc_routing_information))
          differ in
      (rw (h, checked, refused) refl, rw (checked, refused) refl)

  -- A header whose MAC is right but whose routing information fails to parse with an error: `process`
  -- returns that error, and `process_with_derived_keys` panics.
  pub process-unparsed :
      (m : ℕ) (header : SphinxHeader) (node_secret_key : Scalar) (keys : RoutingKeys)
      (secret : Option Bytes) (kind : ErrorKind)
      → compute_routing_keys header.shared_secret node_secret_key ≡ ok keys
      → bytes_eq header.routing_info.integrity_mac (
          take header_integrity_mac_size
            (hmac keys.header_integrity_hmac_key header.routing_info.enc_routing_information))
        ≡ true
      → unwrap_routing m header.routing_info.enc_routing_information keys.stream_cipher_key
        ≡ err kind
      → (process m header node_secret_key ≡ err kind)
        × (process_with_derived_keys m header secret keys ≡ panic)
  unfolding process process_with_derived_keys
  process-unparsed m header node_secret_key keys secret kind h same bad =
      let info = header.routing_info in
      let checked =
        verify_mac-eq info.integrity_mac keys.header_integrity_hmac_key
          info.enc_routing_information in
      (rw (h, checked, same, bad) refl, rw (checked, same, bad) refl)
