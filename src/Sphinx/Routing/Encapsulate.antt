-- ===== src/Sphinx/Routing/Encapsulate.antt =====
-- `EncapsulatedRoutingInformation::new` of sphinx-benchmarks/src/header/routing/mod.rs as a whole.
use fragging.Common.{
  ℕ, zero, suc, ◌-◌, ◌*◌, ◌≤◌, ◌^◌, ◌≡◌, refl, List, [], ◌∷◌, map, length, take, drop, zip, arith,
  ok, some, eq→==,
}
use fragging.Scylla.Onion.{last}
use fragging.Sphinx.Constants.{Bytes, node_address_length, filler_step_size_increase}
use fragging.Sphinx.Externals.{Externals, IsLawful}
use fragging.Sphinx.Delays.{Delay}
use fragging.Sphinx.Keys.{RoutingKeys, Node}
use fragging.Sphinx.Routing.{EncapsulatedRoutingInformation, Destination, new_encapsulated}
use fragging.Sphinx.Routing.Build.{
  HasSize, AllBelow, AllAddressed, for_final_hop-ok, forward_fold-ok,
}

abbrev pub HaveAddresses : List Node → Type 0
HaveAddresses [] = Unit {0}
HaveAddresses (node ∷ nodes) = (length node.address ≡ node_address_length) × HaveAddresses nodes

pub last-some {ℓ} :
    {A : Type ℓ} (xs : List A) (n : ℕ) → length xs ≡ suc n → (a : A) × (last xs ≡ some a)
unfolding last
last-some [] n h = absurd (omega arith)
last-some (a ∷ []) n h = (a, refl)
last-some (a ∷ b ∷ xs) n h = last-some (b ∷ xs) (length xs) refl

pub take-AllBelow : (n : ℕ) (ds : List Delay) → AllBelow ds → AllBelow (take n ds)
unfolding take
take-AllBelow zero ds h = tt
take-AllBelow (suc n) [] h = tt
take-AllBelow (suc n) (d ∷ ds) h = (h.0, take-AllBelow n ds h.1)

pub zip-AllAddressed :
    (nodes : List Node) (keys : List RoutingKeys)
    → HaveAddresses nodes
    → AllAddressed (zip (map (λ node. node.address) nodes) keys)
unfolding zip
zip-AllAddressed [] keys h = tt
zip-AllAddressed (node ∷ nodes) [] h = tt
zip-AllAddressed (node ∷ nodes) (k ∷ keys) h = (h.0, zip-AllAddressed nodes keys h.1)

pub drop-one : (node : Node) (nodes : List Node) → drop 1 (node ∷ nodes) ≡ nodes
unfolding drop
drop-one node nodes = refl

module _ ⦃x : Externals⦄ (laws : IsLawful x) where
  pub new_encapsulated-ok :
      (m : ℕ) (first : Node) (nodes : List Node) (dest : Destination) (delays : List Delay)
      (keys : List RoutingKeys) (filler : Bytes) (random : ℕ → Bytes)
      → suc (length nodes) ≤ m
      → m ≤ 2 ^ 32
      → HaveAddresses nodes
      → AllBelow delays
      → length keys ≡ suc (length nodes)
      → length delays ≡ suc (length nodes)
      → length dest.address ≡ 32
      → length dest.identifier ≡ 16
      → length filler ≡ filler_step_size_increase * length nodes
      → ((n : ℕ) → length (random n) ≡ n)
      → (info : EncapsulatedRoutingInformation) × (new_encapsulated m
            (first ∷ nodes)
            dest
            delays
            keys
            filler
            random
          ≡ ok info)
        × HasSize m info
  unfolding new_encapsulated
  new_encapsulated-ok m first nodes dest delays keys filler random fits low has below hk hd ha hi hf
        fills =
      let (final_keys, found) = last-some keys (length nodes) hk in
      let (final_info, built, final_sizes) =
        for_final_hop-ok laws m (length nodes) dest final_keys filler random fits low ha hi hf
          fills in
      let hops = zip (map (λ node. node.address) nodes) (take (length keys - 1) keys) in
      let (info, folded, sizes) =
        forward_fold-ok laws m hops (take (length delays - 1) delays) final_info (omega arith)
          (zip-AllAddressed nodes (take (length keys - 1) keys) has)
          (take-AllBelow (length delays - 1) delays below) final_sizes in
      (
        info,
        rw
            (
              eq→== (suc (length nodes)) (length keys) (omega arith),
              eq→== (length delays) (suc (length nodes)) hd,
              found,
              built,
              drop-one first nodes,
            )
            folded,
        sizes,
      )
