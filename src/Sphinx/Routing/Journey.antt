-- ===== src/Sphinx/Routing/Journey.antt =====
-- The routing information of a whole route of sphinx-benchmarks/src/header/routing: the filler of
-- header/filler.rs and the layers fit, so that every node reads what the sender put there for it.
use fragging.Common.{
  ℕ, suc, ◌+◌, ◌-◌, ◌*◌, ◌≤◌, ◌^◌, ◌≡◌, refl, sym, ap, ◌∙◌, List, [], ◌∷◌, ◌++◌, map, zip, length,
  take, drop, replicate, arith, length-append, length-replicate, length-take_le, length-drop,
  length-map, ok, some, slice_from_le, eq→==, le→leb,
}
use fragging.Scylla.Onion.{last}
use fragging.Sphinx.Constants.{
  Bytes, ErrorKind, filler_step_size_increase, stream_cipher_output_length, xor_exact,
}
use fragging.Sphinx.Externals.{Externals, IsLawful}
use fragging.Sphinx.Delays.{Delay}
use fragging.Sphinx.Keys.{RoutingKeys, Node}
use fragging.Sphinx.Filler.{
  filler_step, filler_fold, new_filler, length-generate, stream_cipher_init_vector,
}
use fragging.Sphinx.Routing.{
  EncapsulatedRoutingInformation, Destination, encrypted_routing_info_size, stream,
  new_encapsulated,
}
use fragging.Sphinx.Routing.Build.{AllBelow}
use fragging.Sphinx.Routing.Encapsulate.{
  HaveAddresses, last-some, take-AllBelow, zip-AllAddressed, drop-one,
}
use fragging.Sphinx.Routing.Layers.{grow, length-grow}
use fragging.Sphinx.Routing.Reading.{Opens, fills, forward_fold-Opens}
use fragging.Sphinx.Routing.Final.{IsFinal, for_final_hop-IsFinal}

abbrev keys_of : List (Bytes × RoutingKeys) → List RoutingKeys
keys_of [] = []
keys_of (hop ∷ hops) = hop.1 ∷ keys_of hops

keys_of-zip :
    (nodes : List Bytes) (keys : List RoutingKeys)
    → length nodes ≡ length keys
    → keys_of (zip nodes keys) ≡ keys
unfolding zip
keys_of-zip [] [] h = refl
keys_of-zip [] (k ∷ keys) h = absurd (omega arith)
keys_of-zip (a ∷ nodes) [] h = absurd (omega arith)
keys_of-zip (a ∷ nodes) (k ∷ keys) h = ap (λ ks. k ∷ ks) (keys_of-zip nodes keys (omega arith))

length-zip :
    (nodes : List Bytes) (keys : List RoutingKeys)
    → length nodes ≡ length keys
    → length (zip nodes keys) ≡ length nodes
unfolding zip
length-zip [] [] h = refl
length-zip [] (k ∷ keys) h = absurd (omega arith)
length-zip (a ∷ nodes) [] h = absurd (omega arith)
length-zip (a ∷ nodes) (k ∷ keys) h = ap suc (length-zip nodes keys (omega arith))

module _ ⦃x : Externals⦄ (laws : IsLawful x) (m : ℕ) (pos : 1 ≤ m) where
  -- The fold of `Filler::new` grows the filler key by key.
  filler_fold-fills :
      (hops : List (Bytes × RoutingKeys)) (acc : Bytes) (i : ℕ)
      → length acc ≡ filler_step_size_increase * i
      → i + length hops ≤ m
      → filler_fold m acc i (keys_of hops) ≡ ok (fills laws m pos acc hops)
  unfolding filler_fold filler_step xor_exact
  filler_fold-fills [] acc i ha fits = refl
  filler_fold-fills (hop ∷ hops) acc i ha fits =
      let mask = stream m hop.1.stream_cipher_key in
      let mask_length : length mask ≡ stream_cipher_output_length m =
        length-generate laws hop.1.stream_cipher_key stream_cipher_init_vector
          (stream_cipher_output_length m) in
      let extended = acc ++ replicate filler_step_size_increase 0 in
      let at : ℕ = length mask - (i + 1) * filler_step_size_increase in
      let same : drop at mask ≡ drop (encrypted_routing_info_size m - length acc) mask =
        ap (λ (j : ℕ). drop j mask) (omega (arith, mask_length, ha)) in
      let extended_length = length-append acc (replicate filler_step_size_increase 0) in
      let sixty = length-replicate {A = ℕ} filler_step_size_increase 0 in
      let grown = length-grow laws m pos acc hop.1 (omega (arith, ha)) in
      rw
        (
          eq→== (length mask) (stream_cipher_output_length m) mask_length,
          eq→== (length acc) (filler_step_size_increase * (i + 1 - 1)) (omega (arith, ha)),
          le→leb ((i + 1) * filler_step_size_increase) (length mask) (omega (arith, mask_length)),
          slice_from_le {E = ErrorKind} at mask (omega arith),
          eq→== (length extended) (length (drop at mask))
              (omega (arith, extended_length, sixty, length-drop at mask, mask_length, ha)),
          same,
        )
        (filler_fold-fills hops (grow laws m pos acc hop.1) (i + 1) (omega (arith, grown, ha))
          (omega arith))

  length-fills :
      (hops : List (Bytes × RoutingKeys)) (acc : Bytes)
      → length acc + filler_step_size_increase * length hops ≤ encrypted_routing_info_size m
      → length (fills laws m pos acc hops) ≡ length acc + filler_step_size_increase * length hops
  length-fills [] acc fits = omega arith
  length-fills (hop ∷ hops) acc fits =
      let grown = length-grow laws m pos acc hop.1 (omega arith) in
      omega (arith, grown, length-fills hops (grow laws m pos acc hop.1) (omega (arith, grown)))

  -- Where `m` is at most 2^32: for a route of one to `m` nodes whose addresses behind the first have 32 bytes, with a delay below
  -- 2^64 and keys for each: the filler and the routing information are made, and the nodes in turn,
  -- each under the right MAC, read from it the address of the next node, their own delay, and the
  -- routing information for the next, down to the last one, which reads the destination.
  pub new_encapsulated-Opens :
      (first : Node) (nodes : List Node) (dest : Destination) (delays : List Delay)
      (keys : List RoutingKeys) (random : ℕ → Bytes)
      → suc (length nodes) ≤ m
      → m ≤ 2 ^ 32
      → HaveAddresses nodes
      → AllBelow delays
      → length keys ≡ suc (length nodes)
      → length delays ≡ suc (length nodes)
      → length dest.address ≡ 32
      → length dest.identifier ≡ 16
      → ((n : ℕ) → length (random n) ≡ n)
      → (filler : Bytes) × (info : EncapsulatedRoutingInformation) × (final_keys : RoutingKeys)
        × (new_filler m (take (length nodes) keys) ≡ ok filler)
        × (new_encapsulated m (first ∷ nodes) dest delays keys filler random ≡ ok info)
        × (last keys ≡ some final_keys)
        × Opens laws m pos
            (zip (map (λ node. node.address) nodes) (take (length nodes) keys))
            (take (length nodes) delays)
            (IsFinal laws m dest final_keys)
            info
  unfolding new_encapsulated new_filler
  new_encapsulated-Opens first nodes dest delays keys random fits low has below hk hd ha hi fill =
      let k = length nodes in
      let addresses = map (λ node. node.address) nodes in
      let before = take k keys in
      let before_length : length before ≡ k = length-take_le k keys (omega (arith, hk)) in
      let waits = take k delays in
      let waits_length : length waits ≡ k = length-take_le k delays (omega (arith, hd)) in
      let names_length : length addresses ≡ k = length-map nodes (λ node. node.address) in
      let hops = zip addresses before in
      let hops_length : length hops ≡ k =
        length-zip addresses before (omega (arith, names_length, before_length)) ∙ names_length in
      let filler = fills laws m pos [] hops in
      let filler_length : length filler ≡ filler_step_size_increase * k =
        length-fills hops [] (omega (arith, hops_length)) ∙ omega (arith, hops_length) in
      let (final_keys, found) = last-some keys k hk in
      let (final_info, built, sizes, ends, final) =
        for_final_hop-IsFinal laws m k dest final_keys filler random fits low ha hi filler_length
          fill in
      let (info, folded, _, _, opens) =
        forward_fold-Opens laws m pos hops waits [] (IsFinal laws m dest final_keys) final_info
          (omega (arith, waits_length, hops_length)) (zip-AllAddressed nodes before has)
          (take-AllBelow k delays below) sizes (omega (arith, hops_length)) ends final in
      let fold = filler_fold-fills hops [] 0 (omega arith) (omega (arith, hops_length)) in
      let all = keys_of-zip addresses before (omega (arith, names_length, before_length)) in
      let less : length keys - 1 ≡ k = omega (arith, hk) in
      let fewer : length delays - 1 ≡ k = omega (arith, hd) in
      (
        filler,
        info,
        final_keys,
        rw (le→leb (length before) m (omega (arith, before_length)))
            (ap (filler_fold m [] 0) (sym all) ∙ fold),
        rw
            (
              eq→== (suc k) (length keys) (omega (arith, hk)),
              eq→== (length delays) (suc k) hd,
              found,
              built,
              drop-one first nodes,
              less,
              fewer,
            )
            folded,
        found,
        opens,
      )
