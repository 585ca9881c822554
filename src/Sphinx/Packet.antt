-- ===== src/Sphinx/Packet.antt =====
-- The packet of sphinx-benchmarks/src/packet (mod.rs, builder.rs), for headers of `m` hops.
pub mod Codec
pub mod Derived
pub mod Journey
mod Tests
use fragging.Common.{
  ℕ, Option, ◌+◌, List, ◌++◌, length, ok, ensure, slice, slice_from, ◌>>=◌, ◌>>◌, ltb, not,
}
use fragging.Sphinx.Constants.{Bytes, Result, invalid_packet, payload_overhead_size}
use fragging.Sphinx.Externals.{Externals}
use fragging.Sphinx.Delays.{Delay}
use fragging.Sphinx.Keys.{Node, RoutingKeys}
use fragging.Sphinx.Routing.{Destination}
use fragging.Sphinx.Payload.{
  Payload, encapsulate_message, unwrap_layer, from_bytes as payload_from_bytes,
}
use fragging.Sphinx.Header.{
  SphinxHeader, ProcessedHeader, forwarded, delivered, header_size, new_header,
  process_with_derived_keys as header_with_derived_keys, process as process_header,
  to_bytes as header_to_bytes, from_bytes as header_from_bytes,
}

pub record SphinxPacket : Type 0 where
  pub header : SphinxHeader
  pub payload : Payload

pub data ProcessedPacket : Type 0 where
  forward_packet : SphinxPacket → Bytes → Delay → ProcessedPacket
  final_packet : Bytes → Bytes → Payload → ProcessedPacket

pub to_bytes : SphinxPacket → Bytes
to_bytes packet = header_to_bytes packet.header ++ packet.payload

pub from_bytes : ℕ → Bytes → Result SphinxPacket
from_bytes m bytes = do
  ensure (not (ltb (length bytes) (header_size m + payload_overhead_size))) invalid_packet
  header_bytes ← slice 0 (header_size m) bytes
  payload_bytes ← slice_from (header_size m) bytes
  header ← header_from_bytes m header_bytes
  payload ← payload_from_bytes payload_bytes
  ok (record { header = header; payload = payload })

module _ ⦃x : Externals⦄ where
  -- `SphinxPacketBuilder::build_packet` for an initial secret, given or drawn.
  unfoldable pub build_packet :
      ℕ
      → ℕ
      → x.Scalar
      → Bytes
      → List Node
      → Destination
      → List Delay
      → (ℕ → Bytes)
      → Result SphinxPacket
  build_packet m payload_size initial_secret message route destination delays random = do
    (header, payload_keys) ← new_header m initial_secret route delays destination random
    payload ← encapsulate_message message payload_keys payload_size
    ok (record { header = header; payload = payload })

  -- The match of `process` on the processed header.
  abbrev pub with_payload : Payload → ProcessedHeader → Result ProcessedPacket
  with_payload payload (forwarded header address delay payload_key) = do
    new_payload ← unwrap_layer payload_key payload
    ok (forward_packet (record { header = header; payload = new_payload }) address delay)
  with_payload payload (delivered destination identifier payload_key) = do
    new_payload ← unwrap_layer payload_key payload
    ok (final_packet destination identifier new_payload)

  unfoldable pub process : ℕ → SphinxPacket → x.Scalar → Result ProcessedPacket
  process m packet node_secret_key = do
    unwrapped_header ← process_header m packet.header node_secret_key
    with_payload packet.payload unwrapped_header

  -- The match of `process_with_derived_keys` on the processed header.
  abbrev pub with_derived : Payload → ProcessedHeader → Result ProcessedPacket
  with_derived payload (forwarded header address delay payload_key) = do
    new_payload ← unwrap_layer payload_key payload
    ok (forward_packet (record { header = header; payload = new_payload }) address delay)
  with_derived payload (delivered destination identifier payload_key) = do
    new_payload ← unwrap_layer payload_key payload
    ok (final_packet destination identifier new_payload)

  unfoldable pub process_with_derived_keys :
      ℕ → SphinxPacket → Option Bytes → RoutingKeys → Result ProcessedPacket
  process_with_derived_keys m packet new_blinded_secret routing_keys = do
    unwrapped_header ← header_with_derived_keys m packet.header new_blinded_secret routing_keys
    with_derived packet.payload unwrapped_header
