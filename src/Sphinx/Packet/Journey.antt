-- ===== src/Sphinx/Packet/Journey.antt =====
-- A packet of sphinx-benchmarks/src/packet on its route: every node's `process` sends it on to the next
-- node, and the last one delivers the message.
use mathlib.Core.Path.{subst}
use fragging.Common.{
  ℕ, suc, ◌+◌, ◌≤◌, ◌<◌, ◌^◌, ◌≡◌, refl, sym, ap, ◌∙◌, List, [], ◌∷◌, map, zip, length, take, some,
  arith, ok, >>=-eq-ok, length-map, length-take_le,
}
use fragging.Scylla.Onion.{last}
use fragging.Sphinx.Constants.{Bytes, Result, payload_overhead_size}
use fragging.Sphinx.Externals.{Externals, IsLawful}
use fragging.Sphinx.Delays.{Delay}
use fragging.Sphinx.Keys.{RoutingKeys, compute_routing_keys, blind_the_shared_secret}
use fragging.Sphinx.Keys.Agreement.{node_of, hop_keys}
use fragging.Sphinx.Payload.{Payload, unwrap_layer, recover_plaintext}
use fragging.Sphinx.Payload.Layers.{unwrap_layers, recover-encapsulate_message}
use fragging.Sphinx.Routing.{Destination, forward_hop, final_hop}
use fragging.Sphinx.Routing.Build.{AllBelow}
use fragging.Sphinx.Routing.Encapsulate.{HaveAddresses}
use fragging.Sphinx.Routing.Reading.{Opens}
use fragging.Sphinx.Routing.Final.{IsFinal}
use fragging.Sphinx.Header.Build.{payload-AllKeys}
use fragging.Sphinx.Header.Journey.{process-parsed, new_header-IsMade}
use fragging.Sphinx.Packet.{SphinxPacket, forward_packet, final_packet, process, build_packet}

module _ ⦃x : Externals⦄ where
  open x use {Scalar}

  ok-inj : {A : Type 0} {a b : A} → ◌≡◌ {A = Result A} (ok a) (ok b) → a ≡ b
  ok-inj e = cc

  -- The first of the keys, and the others.
  hop_keys-cons :
      (secret : Scalar) (secrets : List Scalar) (shared : Bytes) (keys : List RoutingKeys)
      → hop_keys (secret ∷ secrets) shared ≡ ok keys
      → (k : RoutingKeys) × (others : List RoutingKeys) × (compute_routing_keys shared secret
          ≡ ok k)
        × (hop_keys secrets (blind_the_shared_secret shared k.blinding_factor) ≡ ok others)
        × (k ∷ others ≡ keys)
  unfolding hop_keys
  hop_keys-cons secret secrets shared keys h =
      let (k, computed, rest) = >>=-eq-ok (compute_routing_keys shared secret) _ h in
      let (others, hopped, done) =
        >>=-eq-ok (hop_keys secrets (blind_the_shared_secret shared k.blinding_factor)) _ rest in
      (k, others, computed, hopped, ok-inj done)

  -- The node with the private key, and after it the others, process the packet in turn: each sends it
  -- to the next with its delay, and the last delivers to the destination what is as `Good` says.
  abbrev pub Arrives :
      ℕ
      → Destination
      → (Payload → Type 0)
      → Scalar
      → List (Bytes × Scalar)
      → List Delay
      → SphinxPacket
      → Type 0
  Arrives m dest Good secret [] delays packet =
      (payload : Payload) × (process m packet secret
        ≡ ok (final_packet dest.address dest.identifier payload))
      × Good payload
  Arrives m dest Good secret (next ∷ owners) [] packet = ⊥
  Arrives m dest Good secret (next ∷ owners) (delay ∷ delays) packet =
      (sent : SphinxPacket) × (process m packet secret ≡ ok (forward_packet sent next.0 delay))
      × Arrives m dest Good next.1 owners delays sent

  last-cons :
      (k : RoutingKeys) (others : List RoutingKeys)
      → 1 ≤ length others
      → last (k ∷ others) ≡ last others
  unfolding last
  last-cons k [] h = absurd (omega arith)
  last-cons k (other ∷ others) h = refl

  first_layer :
      (k : RoutingKeys) (others : List RoutingKeys) (payload : Payload) {inner : Payload}
      → unwrap_layers (map (λ k. k.payload_key) (k ∷ others)) payload ≡ ok inner
      → (peeled : Payload) × (unwrap_layer k.payload_key payload ≡ ok peeled)
        × (unwrap_layers (map (λ k. k.payload_key) others) peeled ≡ ok inner)
  unfolding unwrap_layers
  first_layer k others payload e = >>=-eq-ok (unwrap_layer k.payload_key payload) _ e

module _ ⦃x : Externals⦄ (laws : IsLawful x) (m : ℕ) (pos : 1 ≤ m) (dest : Destination)
    (Good : Payload → Type 0) where
  open x use {Scalar}

  -- The nodes before the last open the routing information with these keys, and the last one reads it.
  abbrev OpensFor :
      List (Bytes × Scalar) → List Delay → RoutingKeys → List RoutingKeys → SphinxPacket → Type 0
  OpensFor owners delays final_keys keys packet =
      Opens laws m pos
        (zip (map (λ node. node.address) (map node_of owners))
          (take (length (map node_of owners)) keys))
        delays (IsFinal laws m dest final_keys) packet.header.routing_info

  -- What the keys of the nodes open, processing opens.
  Opens-Arrives :
      (owners : List (Bytes × Scalar)) (delays : List Delay) (secret : Scalar) (k : RoutingKeys)
      (others : List RoutingKeys) (final_keys : RoutingKeys) (packet : SphinxPacket)
      (payload : Payload)
      → compute_routing_keys packet.header.shared_secret secret ≡ ok k
      → hop_keys
          (map (λ o. o.1) owners)
          (blind_the_shared_secret packet.header.shared_secret k.blinding_factor)
        ≡ ok others
      → length others ≡ length owners
      → length delays ≡ length owners
      → last (k ∷ others) ≡ some final_keys
      → OpensFor owners delays final_keys (k ∷ others) packet
      → unwrap_layers (map (λ k. k.payload_key) (k ∷ others)) packet.payload ≡ ok payload
      → Good payload
      → Arrives m dest Good secret owners delays packet
  unfolding process unwrap_layers last zip take
  Opens-Arrives [] [] secret k [] final_keys packet payload computed hopped count waits found opens
        layers good =
      let (peeled, one, rest) = first_layer k [] packet.payload layers in
      let mine : final_keys ≡ k = cc in
      let opens' : IsFinal laws m dest k packet.header.routing_info =
        subst (λ ks. IsFinal laws m dest ks packet.header.routing_info) mine opens in
      let parsed =
        process-parsed laws m pos packet.header secret k (final_hop dest.address dest.identifier)
          computed opens'.sealed opens'.read in
      let same : peeled ≡ payload = ok-inj rest in
      (peeled, rw (parsed, one) refl, subst Good (sym same) good)
  Opens-Arrives [] [] secret k (other ∷ others) final_keys packet payload computed hopped count
        waits found opens layers good =
      absurd (omega arith)
  Opens-Arrives [] (d ∷ delays) secret k others final_keys packet payload computed hopped count
        waits found opens layers good =
      absurd (omega arith)
  Opens-Arrives (next ∷ owners) [] secret k others final_keys packet payload computed hopped count
        waits found opens layers good =
      absurd (omega arith)
  Opens-Arrives (next ∷ owners) (d ∷ delays) secret k others final_keys packet payload computed
        hopped count waits found opens layers good =
      let (peeled, one, rest) = first_layer k others packet.payload layers in
      let (sealed, (info, (read, further))) = opens in
      let parsed =
        process-parsed laws m pos packet.header secret k (forward_hop next.0 d info) computed sealed
          read in
      let blinded = blind_the_shared_secret packet.header.shared_secret k.blinding_factor in
      let sent : SphinxPacket = record {
        header = record { shared_secret = blinded; routing_info = info };
        payload = peeled;
      } in
      let (k', others', computed', hopped', same) =
        hop_keys-cons next.1 (map (λ o. o.1) owners) blinded others hopped in
      (
        sent,
        rw (parsed, one) refl,
        Opens-Arrives owners delays next.1 k' others' final_keys sent payload computed' hopped'
            (omega (arith, ap length same)) (omega arith)
            (ap last same ∙ sym (last-cons k others (omega arith)) ∙ found)
            (subst (λ (ks : List RoutingKeys). OpensFor owners delays final_keys ks sent) (sym same)
              further)
            (ap (λ ks. unwrap_layers (map (λ k. k.payload_key) ks) peeled) same ∙ rest) good,
      )

module _ ⦃x : Externals⦄ (laws : IsLawful x) where
  open x use {Scalar}

  -- Where `m` is at most 2^32: for a route of one to `m` nodes whose addresses behind the first have 32 bytes, with a delay below
  -- 2^64 for each, a destination of 32 and 16 bytes, random bytes as many as asked for and a message
  -- that fits beside the overhead into a payload above the cipher's block: `build_packet` succeeds, and
  -- the nodes, each with its private key, `process` the packet in turn: each before the last sends it on
  -- to the address of the next with its own delay, and the last delivers it for the destination's
  -- address and identifier with a payload from which `recover_plaintext` returns the message.
  pub build_packet-Arrives :
      (m payload_size : ℕ) (initial_secret : Scalar) (message : Bytes) (o : Bytes × Scalar)
      (owners : List (Bytes × Scalar)) (delays : List Delay) (dest : Destination)
      (random : ℕ → Bytes)
      → suc (length owners) ≤ m
      → m ≤ 2 ^ 32
      → HaveAddresses (map node_of owners)
      → AllBelow delays
      → length delays ≡ suc (length owners)
      → length dest.address ≡ 32
      → length dest.identifier ≡ 16
      → ((n : ℕ) → length (random n) ≡ n)
      → length message + payload_overhead_size ≤ payload_size
      → x.digest_result_size < payload_size
      → (packet : SphinxPacket) × (build_packet m payload_size initial_secret message
            (map node_of (o ∷ owners))
            dest
            delays
            random
          ≡ ok packet)
        × Arrives m dest
            (λ payload. recover_plaintext payload ≡ ok message)
            o.1
            owners
            (take (length owners) delays)
            packet
  unfolding build_packet
  build_packet-Arrives m payload_size initial_secret message o owners delays dest random fits low
        has below hd ha hi fills room block =
      let pos : 1 ≤ m = omega arith in
      let made =
        new_header-IsMade laws m pos initial_secret o owners delays dest random fits low has below
          hd ha hi fills in
      let payload_keys = map (λ k. k.payload_key) made.keys in
      let (payload, wrapped, _, recovers) =
        recover-encapsulate_message laws message payload_keys payload_size room block
          (payload-AllKeys made.keys made.sizes) in
      let (inner, layers, good) =
        >>=-eq-ok (unwrap_layers payload_keys payload) recover_plaintext recovers in
      let packet : SphinxPacket = record { header = made.header; payload = payload } in
      let (k, others, computed, hopped, same) =
        hop_keys-cons o.1 (map (λ o. o.1) owners) made.header.shared_secret made.keys made.hopped in
      let Good = λ (payload : Payload). recover_plaintext payload ≡ ok message in
      let count = length-map owners node_of in
      (
        packet,
        rw (made.returns, wrapped) refl,
        Opens-Arrives laws m pos dest Good owners (take (length owners) delays) o.1 k others
            made.final_keys packet inner computed hopped (omega (arith, ap length same, made.count))
            (length-take_le (length owners) delays (omega (arith, hd))) (ap last same ∙ made.found)
            (subst
              (λ (ks : List RoutingKeys).
                OpensFor laws m pos dest Good owners (take (length owners) delays) made.final_keys
                  ks packet)
              (sym same)
              (subst
                (λ (n : ℕ).
                  Opens laws m pos
                    (zip (map (λ node. node.address) (map node_of owners))
                      (take (length (map node_of owners)) made.keys))
                    (take n delays) (IsFinal laws m dest made.final_keys) made.header.routing_info)
                count made.opens))
            (ap (λ ks. unwrap_layers (map (λ k. k.payload_key) ks) payload) same ∙ layers) good,
      )
