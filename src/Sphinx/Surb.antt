-- ===== src/Sphinx/Surb.antt =====
-- The single-use reply block of sphinx-benchmarks/src/surb/mod.rs, for headers of `m` hops.
pub mod Codec
pub mod Use
pub mod Journey
mod Tests
use fragging.Common.{
  ℕ, zero, suc, ◌+◌, ◌*◌, ◌/◌, ◌%◌, List, [], ◌∷◌, ◌++◌, length, flatten, not, Outcome, ok, err,
  panic, ensure, slice, slice_from, ◌>>=◌, ◌>>◌, ltb, ◌==◌,
}
use fragging.Sphinx.Constants.{Bytes, Result, invalid_surb, node_address_length}
use fragging.Sphinx.Externals.{Externals}
use fragging.Sphinx.Delays.{Delay}
use fragging.Sphinx.Keys.{Node, payload_key_size}
use fragging.Sphinx.Routing.{Destination}
use fragging.Sphinx.Payload.{encapsulate_message}
use fragging.Sphinx.Route.NodeAddress.{try_from_byte_slice}
use fragging.Sphinx.Header.{
  SphinxHeader, header_size, new_header, to_bytes as header_to_bytes,
  from_bytes as header_from_bytes,
}
use fragging.Sphinx.Packet.{SphinxPacket}

pub record Surb : Type 0 where
  pub surb_header : SphinxHeader
  pub first_hop_address : Bytes
  pub payload_keys : List Bytes

pub record SurbMaterial : Type 0 where
  pub surb_route : List Node
  pub surb_delays : List Delay
  pub surb_destination : Destination

unfoldable pub to_bytes : Surb → Bytes
to_bytes surb =
    header_to_bytes surb.surb_header ++ (surb.first_hop_address ++ flatten surb.payload_keys)

-- The loop of `from_bytes`, for `count` keys from the `i`-th on.
unfoldable pub read_keys : ℕ → ℕ → Bytes → Result (List Bytes)
read_keys i zero payload_keys_bytes = ok []
read_keys i (suc count) payload_keys_bytes = do
  payload_key ← slice (i * payload_key_size) ((i + 1) * payload_key_size) payload_keys_bytes
  rest ← read_keys (i + 1) count payload_keys_bytes
  ok (payload_key ∷ rest)

unfoldable pub from_bytes : ℕ → Bytes → Result Surb
from_bytes m bytes = do
  ensure (not (ltb (length bytes) (header_size m + node_address_length + payload_key_size)))
      invalid_surb
  header_bytes ← slice 0 (header_size m) bytes
  first_hop_bytes ← slice (header_size m) (header_size m + node_address_length) bytes
  payload_keys_bytes ← slice_from (header_size m + node_address_length) bytes
  ensure (length payload_keys_bytes % payload_key_size == 0) invalid_surb
  surb_header ← header_from_bytes m header_bytes
  first_hop_address ← try_from_byte_slice first_hop_bytes
  payload_keys ← read_keys 0 (length payload_keys_bytes / payload_key_size) payload_keys_bytes
  ok (record {
    surb_header = surb_header;
    first_hop_address = first_hop_address;
    payload_keys = payload_keys;
  })

module _ ⦃x : Externals⦄ where
  open x use {Scalar}

  -- The rest of `SURB::new`, with the first hop of the route.
  abbrev pub new_for : ℕ → Scalar → Node → SurbMaterial → (ℕ → Bytes) → Result Surb
  new_for m initial_secret first_hop material random = do
    (header, payload_keys) ←
        new_header m initial_secret material.surb_route material.surb_delays
          material.surb_destination random
    ok (record {
      surb_header = header;
      first_hop_address = first_hop.address;
      payload_keys = payload_keys;
    })

  -- `SURB::new`; the test of an empty route and the first hop are one match.
  abbrev pub new_on : ℕ → Scalar → List Node → SurbMaterial → (ℕ → Bytes) → Result Surb
  new_on m initial_secret [] material random = err invalid_surb
  new_on m initial_secret (first_hop ∷ others) material random = do
    ensure (suc (length others) == length material.surb_delays) invalid_surb
    new_for m initial_secret first_hop material random

  unfoldable pub new : ℕ → Scalar → SurbMaterial → (ℕ → Bytes) → Result Surb
  new m initial_secret material random = new_on m initial_secret material.surb_route material random

  unfoldable pub use_surb : Surb → Bytes → ℕ → Result (SphinxPacket × Bytes)
  use_surb surb plaintext_message payload_size = do
    payload ← encapsulate_message plaintext_message surb.payload_keys payload_size
    ok (record { header = surb.surb_header; payload = payload }, surb.first_hop_address)
