-- ===== src/Sphinx/Surb/Journey.antt =====
-- A reply block of sphinx-benchmarks/src/surb/mod.rs: made, written and read back, and used for a packet
-- that travels its route.
use fragging.Common.{
  ℕ, suc, ◌+◌, ◌≤◌, ◌<◌, ◌^◌, ◌≡◌, refl, sym, ap, ◌∙◌, List, ◌∷◌, map, length, length-map, take, ok,
  ◌>>=◌, eq→==, arith,
}
use fragging.Sphinx.Constants.{Bytes, node_address_length, payload_overhead_size}
use fragging.Sphinx.Externals.{Externals, IsLawful}
use fragging.Sphinx.Delays.{Delay}
use fragging.Sphinx.Keys.Agreement.{node_of}
use fragging.Sphinx.Payload.{recover_plaintext}
use fragging.Sphinx.Routing.{Destination}
use fragging.Sphinx.Routing.Build.{AllBelow}
use fragging.Sphinx.Routing.Encapsulate.{HaveAddresses}
use fragging.Sphinx.Header.Build.{new_header-IsSized}
use fragging.Sphinx.Packet.{SphinxPacket}
use fragging.Sphinx.Packet.Journey.{Arrives, build_packet-Arrives}
use fragging.Sphinx.Surb.{Surb, SurbMaterial, new, use_surb, from_bytes, to_bytes}
use fragging.Sphinx.Surb.Codec.{surb_from_bytes-to_bytes}
use fragging.Sphinx.Surb.Use.{use_surb-new}

module _ ⦃x : Externals⦄ (laws : IsLawful x) where
  open x use {Scalar}

  -- Where `m` is at most 2^32: for material and a message as `build_packet` takes them, and addresses of 32 bytes: `SURB::new` makes
  -- a reply block, which is read back from its bytes; `use_surb` makes of it and the message a packet for
  -- the first node, and the nodes process that packet in turn down to the last, which delivers it for the
  -- destination with a payload from which `recover_plaintext` returns the message.
  pub use_surb-Arrives :
      (m payload_size : ℕ) (initial_secret : Scalar) (message : Bytes) (o : Bytes × Scalar)
      (owners : List (Bytes × Scalar)) (delays : List Delay) (dest : Destination)
      (random : ℕ → Bytes)
      → suc (length owners) ≤ m
      → m ≤ 2 ^ 32
      → length o.0 ≡ node_address_length
      → HaveAddresses (map node_of owners)
      → AllBelow delays
      → length delays ≡ suc (length owners)
      → length dest.address ≡ 32
      → length dest.identifier ≡ 16
      → ((n : ℕ) → length (random n) ≡ n)
      → length message + payload_overhead_size ≤ payload_size
      → x.digest_result_size < payload_size
      → (surb : Surb) × (packet : SphinxPacket) × (new m initial_secret
            (record {
              surb_route = map node_of (o ∷ owners);
              surb_delays = delays;
              surb_destination = dest;
            })
            random
          ≡ ok surb)
        × (from_bytes m (to_bytes surb) ≡ ok surb)
        × (use_surb surb message payload_size ≡ ok (packet, o.0))
        × Arrives m dest
            (λ payload. recover_plaintext payload ≡ ok message)
            o.1
            owners
            (take (length owners) delays)
            packet
  unfolding new
  use_surb-Arrives m payload_size initial_secret message o owners delays dest random fits low first
        has below hd ha hi fills room block =
      let count = length-map owners node_of in
      let (header, keys, returns, sized, keys_count, keys_sized) =
        new_header-IsSized laws m initial_secret o owners delays dest random fits low has below hd
          ha hi fills in
      let (packet, built, arrives) =
        build_packet-Arrives laws m payload_size initial_secret message o owners delays dest random
          fits low has below hd ha hi fills room block in
      let material : SurbMaterial = record {
        surb_route = map node_of (o ∷ owners);
        surb_delays = delays;
        surb_destination = dest;
      } in
      let surb : Surb = record {
        surb_header = header;
        first_hop_address = o.0;
        payload_keys = keys;
      } in
      let equal : suc (length (map node_of owners)) ≡ length delays = omega (arith, count, hd) in
      let made : new m initial_secret material random ≡ ok surb =
        rw (eq→== (suc (length (map node_of owners))) (length delays) equal, returns) refl in
      (
        surb,
        packet,
        made,
        surb_from_bytes-to_bytes m surb sized first (omega (arith, keys_count)) keys_sized,
        ap (λ r. r >>= (λ made. use_surb made message payload_size)) (sym made)
            ∙ use_surb-new m initial_secret random (node_of o) (map node_of owners) delays dest
                message payload_size (sym equal)
            ∙ ap (λ r. r >>= (λ packet. ok (packet, o.0))) built,
        arrives,
      )
