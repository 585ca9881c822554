-- ===== src/Scylla/Onion/Journey.antt =====
-- The way of an onion along its path, as the mix nodes process it one after the other.
use fragging.Common.{
  zip, ℕ, ◌+◌, ◌-◌, ◌≤◌, ◌≡◌, sym, ap, ◌∙◌, List, [], ◌∷◌, ◌++◌, map, length, arith, length-append,
  length-replicate, length-xor, Outcome, ok, panic, ◌>>=◌, >>=-eq-ok,
}
use fragging.Scylla.Primitives.{Primitives, IsLawful, Bytes}
use fragging.Scylla.Crypto.{
  Error, per_hop_meta_length, reply_meta_length, h_b, h_rho, rho, h_pi, pi_inv,
}
use fragging.Scylla.Crypto.Laws.{pi_key, h_pi-eq, length-rho}
use fragging.Scylla.Onion.{
  Scylla, Node, from_private_key, ProcessedOnion, relay, fragment, reply, bytes_per_hop, zeros,
  header_length, shared_secrets, process,
}
use fragging.Scylla.Onion.Header.{Opens}
use fragging.Scylla.Onion.Payload.{decrypt_layers}
use fragging.Scylla.Onion.Process.{onion_of, routing_of, finish, process-onion_of, finish-relay}

-- A mix node with its private key.
pub record Owner (Scalar : Type 0) : Type 0 where
  pub address : Bytes
  pub private_key : Scalar

module _ ⦃p : Primitives⦄ where
  open p use {Point, Scalar, compress, point_mul, scalar_mul, base_mul}

  abbrev pub node_of : Owner Scalar → Node Point
  node_of o = from_private_key o.address o.private_key

  abbrev pub HasAddress : List (Owner Scalar) → Type 0
  HasAddress [] = Unit {0}
  HasAddress (o ∷ os) = (length o.address ≡ 32) × HasAddress os

  -- The nodes with these keys process the onion in turn, each handing on what it relays. The result
  -- is the list of meta data that the relaying nodes saw, and what the last node got.
  abbrev forward :
      (Bytes → Outcome Error (List Bytes × ProcessedOnion))
      → ProcessedOnion
      → Outcome Error (List Bytes × ProcessedOnion)
  forward next (relay meta onion) = do (metas, result) ← next onion; ok (meta ∷ metas, result)
  forward next (fragment set_id index d) = ok ([], fragment set_id index d)
  forward next (reply meta d) = ok ([], reply meta d)

  unfoldable pub travel : Scylla → List Scalar → Bytes → Outcome Error (List Bytes × ProcessedOnion)
  travel sc [] onion = panic
  travel sc (k ∷ ks) onion = process sc k onion >>= forward (travel sc ks)

  -- The meta data by which each hop is told of the next.
  abbrev pub relay_meta : Owner Scalar → Bytes
  relay_meta o = o.address ++ zeros (per_hop_meta_length - 32)

  -- The header at the first of these hops, for the secrets that the sender derived.
  abbrev pub OpensAt : Scylla → List Point → List (Owner Scalar) → Bytes → Bytes → Type 0
  OpensAt sc [] os final_info beta = ⊥
  OpensAt sc (s ∷ ss) os final_info beta =
      Opens (header_length sc) s (zip (map node_of os) ss) final_info beta

  abbrev pub first_onion : Point → List Point → Bytes → Bytes → Bytes
  first_onion alpha [] beta payload = []
  first_onion alpha (s ∷ ss) beta payload = onion_of alpha s beta payload

module _ ⦃p : Primitives⦄ (laws : IsLawful p) (sc : Scylla) (final_info : Bytes)
    (result : Bytes → ProcessedOnion) (final_length : length final_info ≡ reply_meta_length + 1)
    (stops : (next : Bytes → Outcome Error (List Bytes × ProcessedOnion)) (d : Bytes)
      → forward next (result d) ≡ ok ([], result d))
    (arrives : (alpha s : p.Point) (beta payload plain junk key : Bytes)
      → bytes_per_hop ≤ reply_meta_length + 1 + length junk
      → h_pi s ≡ ok key
      → pi_inv key payload ≡ ok plain
      → routing_of (header_length sc) s beta ≡ final_info ++ junk
      → finish alpha s (routing_of (header_length sc) s beta) payload ≡ ok (result plain)) where
  open p use {Point, Scalar, point_mul, base_mul}

  -- The node derives the secret that the sender derived for it.
  hop :
      (o : Owner Scalar) (alpha : Point) (factor : Scalar) (beta payload : Bytes)
      → alpha ≡ base_mul factor
      → length beta ≡ header_length sc
      → let s = point_mul (base_mul o.private_key) factor in
        process sc o.private_key (onion_of alpha s beta payload)
        ≡ finish alpha s (routing_of (header_length sc) s beta) payload
  hop o alpha factor beta payload ha hb =
      let same : point_mul (base_mul o.private_key) factor ≡ point_mul alpha o.private_key =
        laws.exchange o.private_key factor ∙ ap (λ a. point_mul a o.private_key) (sym ha) in
      rw same (process-onion_of laws sc o.private_key alpha beta payload hb)

  length-routing_of :
      (s : Point) (beta : Bytes)
      → length beta ≡ header_length sc
      → length (routing_of (header_length sc) s beta) ≡ header_length sc + bytes_per_hop
  length-routing_of s beta hb =
      let stream = rho (h_rho s) (header_length sc + bytes_per_hop) in
      omega (
        arith,
        length-xor (beta ++ zeros bytes_per_hop) stream,
        length-append beta (zeros bytes_per_hop),
        length-replicate {A = ℕ} bytes_per_hop 0,
        length-rho laws (h_rho s) (header_length sc + bytes_per_hop),
      )

  -- An onion whose header opens along the path reaches the last hop: every hop before it relays
  -- to the next one, and the last one gets the payload with all layers taken off.
  pub travel-first_onion :
      (os : List (Owner Scalar)) (o : Owner Scalar) (alpha : Point) (factor : Scalar)
      (beta payload plain : Bytes)
      → alpha ≡ base_mul factor
      → HasAddress os
      → length beta ≡ header_length sc
      → let ss = shared_secrets (map node_of (o ∷ os)) alpha factor in
        OpensAt sc ss os final_info beta
        → decrypt_layers ss payload ≡ ok plain
        → travel sc (map (λ w. w.private_key) (o ∷ os)) (first_onion alpha ss beta payload)
          ≡ ok (map relay_meta os, result plain)
  unfolding shared_secrets travel from_private_key zip decrypt_layers
  travel-first_onion [] o alpha factor beta payload plain ha hs hb (junk, opens) d =
      let s = point_mul (base_mul o.private_key) factor in
      let (mid, takes, same) =
        >>=-eq-ok (pi_inv (pi_key laws s) payload) ok (rw (h_pi-eq laws s) at d) in
      let room : bytes_per_hop ≤ reply_meta_length + 1 + length junk =
        omega
          (arith, length-routing_of s beta hb, ap length opens, length-append final_info junk) in
      let arrived =
        arrives alpha s beta payload plain junk (pi_key laws s) room (h_pi-eq laws s) (takes ∙ same)
          opens in
      rw (hop o alpha factor beta payload ha hb, arrived) (stops (λ _. panic) plain)
  travel-first_onion (o' ∷ os) o alpha factor beta payload plain ha hs hb opens d =
      let s = point_mul (base_mul o.private_key) factor in
      let blinding = h_b alpha s in
      let alpha' = point_mul alpha blinding in
      let factor' = p.scalar_mul factor blinding in
      let (mid, takes, others) =
        >>=-eq-ok (pi_inv (pi_key laws s) payload) _ (rw (h_pi-eq laws s) at d) in
      let (inner, inner_length, opened, later) = opens in
      let relayed =
        finish-relay laws (header_length sc) alpha s (point_mul (base_mul o'.private_key) factor')
          (node_of o') beta inner payload mid hs.0 (h_pi-eq laws s) takes opened in
      let rest =
        travel-first_onion os o' alpha' factor' inner mid plain
          (ap (λ a. point_mul a blinding) ha ∙ sym (laws.base_mul_mul factor blinding)) hs.1
          inner_length later others in
      rw (hop o alpha factor beta payload ha hb, relayed)
        (ap (λ m. m >>= λ r. ok (relay_meta o' ∷ r.0, r.1)) rest)
