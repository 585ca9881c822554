-- ===== src/Sphinx/Surb/Use.antt =====
-- Making and using a reply block of sphinx-benchmarks/src/surb/mod.rs against building a packet.
use fragging.Common.{ℕ, suc, ◌≡◌, refl, sym, List, ◌∷◌, length, ok, err, panic, ◌>>=◌, eq→==}
use fragging.Sphinx.Constants.{Bytes, Result}
use fragging.Sphinx.Externals.{Externals}
use fragging.Sphinx.Delays.{Delay}
use fragging.Sphinx.Keys.{Node}
use fragging.Sphinx.Routing.{Destination}
use fragging.Sphinx.Payload.{encapsulate_message}
use fragging.Sphinx.Header.{SphinxHeader, new_header}
use fragging.Sphinx.Packet.{SphinxPacket, build_packet}
use fragging.Sphinx.Surb.{Surb, new, use_surb}

abbrev surb_of : Bytes → SphinxHeader × List Bytes → Surb
surb_of first_hop (header, payload_keys) = record {
  surb_header = header;
  first_hop_address = first_hop;
  payload_keys = payload_keys;
}

abbrev packet_of : SphinxHeader → Bytes → SphinxPacket
packet_of header payload = record { header = header; payload = payload }

module _ ⦃x : Externals⦄ (m : ℕ) (initial_secret : x.Scalar) (random : ℕ → Bytes) where
  -- With the payload at hand the packet and the address are the same.
  same_packet :
      (header : SphinxHeader) (first_hop : Bytes) (made : Result Bytes)
      → ◌≡◌ {A = Result (SphinxPacket × Bytes)}
          (made >>= λ payload. ok (packet_of header payload, first_hop))
          ((made >>= λ payload. ok (packet_of header payload)) >>= λ packet. ok (packet, first_hop))
  same_packet header first_hop (ok payload) = refl
  same_packet header first_hop (err e) = refl
  same_packet header first_hop panic = refl

  use_header :
      (made : Result (SphinxHeader × List Bytes)) (message : Bytes) (size : ℕ) (first_hop : Bytes)
      → ((made >>= λ both. ok (surb_of first_hop both)) >>= (λ surb. use_surb surb message size))
        ≡ ((made >>= λ both.
              encapsulate_message message both.1 size >>= λ payload. ok (packet_of both.0 payload))
            >>= (λ packet. ok (packet, first_hop)))
  unfolding use_surb
  use_header (ok (header, payload_keys)) message size first_hop =
      same_packet header first_hop (encapsulate_message message payload_keys size)
  use_header (err e) message size first_hop = refl
  use_header panic message size first_hop = refl

  -- A reply block made for a route with as many delays, and then used for a message, gives what
  -- building a packet for the message gives on the same route with the same secret and delays, and
  -- the address of the first hop; or it fails as that does.
  pub use_surb-new :
      (first_hop : Node) (others : List Node) (delays : List Delay) (dest : Destination)
      (message : Bytes) (size : ℕ)
      → length delays ≡ suc (length others)
      → (new m initial_secret
            (record {
              surb_route = first_hop ∷ others;
              surb_delays = delays;
              surb_destination = dest;
            })
            random
          >>= (λ surb. use_surb surb message size))
        ≡ (build_packet m size initial_secret message (first_hop ∷ others) dest delays random
            >>= (λ packet. ok (packet, first_hop.address)))
  unfolding new build_packet
  use_surb-new first_hop others delays dest message size h =
      rw (eq→== (suc (length others)) (length delays) (sym h)) (
        use_header (new_header m initial_secret (first_hop ∷ others) delays dest random) message
          size first_hop.address)
