-- ===== src/Sphinx/Packet/Codec.antt =====
-- Building a packet of sphinx-benchmarks/src/packet, and writing and reading it.
use fragging.Common.{
  ℕ, suc, ◌+◌, ◌≤◌, ◌<◌, ◌^◌, ◌≡◌, refl, ◌∙◌, List, ◌∷◌, ◌++◌, [], map, length, arith,
  length-append, ok, not_lt→ltb, slice-append, slice_from-append,
}
use fragging.Sphinx.Constants.{Bytes, ErrorKind, payload_overhead_size}
use fragging.Sphinx.Externals.{Externals, IsLawful}
use fragging.Sphinx.Delays.{Delay}
use fragging.Sphinx.Keys.Agreement.{node_of}
use fragging.Sphinx.Payload.{from_bytes as payload_from_bytes}
use fragging.Sphinx.Payload.Layers.{recover-encapsulate_message}
use fragging.Sphinx.Routing.{Destination}
use fragging.Sphinx.Routing.Build.{AllBelow}
use fragging.Sphinx.Routing.Encapsulate.{HaveAddresses}
use fragging.Sphinx.Header.{header_size, to_bytes as header_to_bytes}
use fragging.Sphinx.Header.Codec.{IsSized, length-to_bytes, from_bytes-to_bytes}
use fragging.Sphinx.Header.Build.{new_header-IsSized}
use fragging.Sphinx.Packet.{SphinxPacket, to_bytes, from_bytes, build_packet}

packet_from_bytes-to_bytes :
    (m : ℕ) (packet : SphinxPacket)
    → IsSized m packet.header
    → payload_overhead_size ≤ length packet.payload
    → from_bytes m (to_bytes packet) ≡ ok packet
unfolding from_bytes to_bytes payload_from_bytes
packet_from_bytes-to_bytes m packet s h =
    let front = header_to_bytes packet.header in
    let front_length = length-to_bytes m packet.header s in
    let payload = packet.payload in
    rw
      (
        not_lt→ltb (length (front ++ payload)) (header_size m + payload_overhead_size)
            (omega (arith, length-append front payload)),
        slice-append {E = ErrorKind} 0 (header_size m) [] front payload refl (omega arith),
        slice_from-append {E = ErrorKind} (header_size m) front payload front_length,
        from_bytes-to_bytes m packet.header s,
        not_lt→ltb (length payload) payload_overhead_size h,
      )
      refl

module _ ⦃x : Externals⦄ (laws : IsLawful x) where
  open x use {Scalar}

  -- Where `m` is at most 2^32: for a route, delays and a destination as `SphinxHeader::new` takes them, and a message that fits
  -- into a payload above the cipher's block: `build_packet` succeeds, the packet's bytes are as many
  -- as a header's and the payload size, and `from_bytes` reads the packet back from them.
  pub from_bytes-build_packet :
      (m size : ℕ) (initial_secret : Scalar) (message : Bytes) (o : Bytes × Scalar)
      (owners : List (Bytes × Scalar)) (delays : List Delay) (dest : Destination)
      (random : ℕ → Bytes)
      → suc (length owners) ≤ m
      → m ≤ 2 ^ 32
      → HaveAddresses (map node_of owners)
      → AllBelow delays
      → length delays ≡ suc (length owners)
      → length dest.address ≡ 32
      → length dest.identifier ≡ 16
      → ((n : ℕ) → length (random n) ≡ n)
      → length message + payload_overhead_size ≤ size
      → x.digest_result_size < size
      → (packet : SphinxPacket) × (build_packet m size initial_secret message
            (map node_of (o ∷ owners))
            dest
            delays
            random
          ≡ ok packet)
        × (length (to_bytes packet) ≡ header_size m + size)
        × (from_bytes m (to_bytes packet) ≡ ok packet)
  unfolding build_packet to_bytes
  from_bytes-build_packet m size initial_secret message o owners delays dest random short low has
        below hd ha hi fills fits block =
      let (header, keys, made, sizes, _, all_keys) =
        new_header-IsSized laws m initial_secret o owners delays dest random short low has below hd
          ha hi fills in
      let (payload, wrapped, payload_length, _) =
        recover-encapsulate_message laws message keys size fits block all_keys in
      let packet : SphinxPacket = record { header = header; payload = payload } in
      (
        packet,
        rw (made, wrapped) refl,
        length-append (header_to_bytes header) payload
            ∙ omega (arith, length-to_bytes m header sizes, payload_length),
        packet_from_bytes-to_bytes m packet sizes (omega arith),
      )
