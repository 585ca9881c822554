-- ===== src/Sphinx/Header.antt =====
-- The header of sphinx-benchmarks/src/header/mod.rs, for headers of `m` hops (`MAX_PATH_LENGTH`).
pub mod Checks
pub mod Codec
pub mod Build
pub mod Journey
use fragging.Common.{
  ℕ, ◌+◌, ◌-◌, ◌*◌, List, ◌++◌, map, length, Option, none, some, Bool, Outcome, ok, err, panic,
  ensure, assert, slice, slice_from, ◌>>=◌, ◌>>◌, leb, ◌==◌,
}
use fragging.Sphinx.Constants.{Bytes, Result, ErrorKind, invalid_header, header_integrity_mac_size}
use fragging.Sphinx.Externals.{Externals}
use fragging.Sphinx.Delays.{Delay}
use fragging.Sphinx.Keys.{
  RoutingKeys, Node, derive_material, compute_routing_keys, blind_the_shared_secret,
}
use fragging.Sphinx.Filler.{new_filler}
use fragging.Sphinx.Routing.{
  EncapsulatedRoutingInformation, Destination, ParsedRawRoutingInformation, forward_hop, final_hop,
  encrypted_routing_info_size, verify_mac, unwrap_routing, new_encapsulated,
  to_bytes as routing_to_bytes, from_bytes as routing_from_bytes,
}

abbrev pub header_size : ℕ → ℕ
header_size m = 32 + header_integrity_mac_size + encrypted_routing_info_size m

pub record SphinxHeader : Type 0 where
  pub shared_secret : Bytes
  pub routing_info : EncapsulatedRoutingInformation

pub data ProcessedHeader : Type 0 where
  forwarded : SphinxHeader → Bytes → Delay → Bytes → ProcessedHeader
  delivered : Bytes → Bytes → Bytes → ProcessedHeader

-- `.unwrap()` of a `Result`.
abbrev pub unwrap_result : {A : Type 0} → Result A → Result A
unwrap_result (ok a) = ok a
unwrap_result (err kind) = panic
unwrap_result panic = panic

-- The match of `process_with_derived_keys` on the parsed routing information.
abbrev pub finish_with : Option Bytes → Bytes → ParsedRawRoutingInformation → Result ProcessedHeader
finish_with none payload_key (forward_hop address delay info) = err invalid_header
finish_with (some new_blinded_secret) payload_key (forward_hop address delay info) = ok (
    forwarded (record { shared_secret = new_blinded_secret; routing_info = info }) address delay
      payload_key)
finish_with secret payload_key (final_hop destination identifier) =
    ok (delivered destination identifier payload_key)

pub to_bytes : SphinxHeader → Bytes
to_bytes header = header.shared_secret ++ routing_to_bytes header.routing_info

pub from_bytes : ℕ → Bytes → Result SphinxHeader
from_bytes m bytes = do
  ensure (length bytes == header_size m) invalid_header
  shared_secret ← slice 0 32 bytes
  routing_info_bytes ← slice 32 (header_size m) bytes
  routing_info ← routing_from_bytes m routing_info_bytes
  ok (record { shared_secret = shared_secret; routing_info = routing_info })

module _ ⦃x : Externals⦄ where
  -- `SphinxHeader::new`; `random` fills the padding of the final routing information.
  pub new_header :
      ℕ
      → x.Scalar
      → List Node
      → List Delay
      → Destination
      → (ℕ → Bytes)
      → Result (SphinxHeader × List Bytes)
  new_header m initial_secret route delays destination random = do
    key_material ← derive_material route initial_secret
    assert (leb 1 (length route))
    filler_keys ← slice 0 (length route - 1) key_material.routing_keys
    filler_string ← new_filler m filler_keys
    routing_info ←
        new_encapsulated m route destination delays key_material.routing_keys filler_string random
    ok (
      record { shared_secret = key_material.initial_shared_secret; routing_info = routing_info },
      map (λ keys. keys.payload_key) key_material.routing_keys,
    )

  pub process_with_derived_keys :
      ℕ → SphinxHeader → Option Bytes → RoutingKeys → Result ProcessedHeader
  process_with_derived_keys m header new_blinded_secret routing_keys = do
    let info = header.routing_info
    valid ←
        verify_mac info.integrity_mac routing_keys.header_integrity_hmac_key
          info.enc_routing_information
    ensure valid invalid_header
    parsed ←
        unwrap_result (unwrap_routing m info.enc_routing_information routing_keys.stream_cipher_key)
    finish_with new_blinded_secret routing_keys.payload_key parsed

  -- The match of `process` on the parsed routing information.
  abbrev pub finish : Bytes → RoutingKeys → ParsedRawRoutingInformation → ProcessedHeader
  finish shared_secret keys (forward_hop address delay info) =
      let new_shared_secret = blind_the_shared_secret shared_secret keys.blinding_factor in
      forwarded (record { shared_secret = new_shared_secret; routing_info = info }) address delay
        keys.payload_key
  finish shared_secret keys (final_hop destination identifier) =
      delivered destination identifier keys.payload_key

  pub process : ℕ → SphinxHeader → x.Scalar → Result ProcessedHeader
  process m header node_secret_key = do
    routing_keys ← compute_routing_keys header.shared_secret node_secret_key
    let info = header.routing_info
    valid ←
        verify_mac info.integrity_mac routing_keys.header_integrity_hmac_key
          info.enc_routing_information
    ensure valid invalid_header
    parsed ← unwrap_routing m info.enc_routing_information routing_keys.stream_cipher_key
    ok (finish header.shared_secret routing_keys parsed)
