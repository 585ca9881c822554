-- ===== src/Sphinx/Routing/Tests.antt =====
-- The routing information of a route of sphinx-benchmarks/src/header/routing at a concrete input.
use fragging.Common.{
  ℕ, ◌≡◌, refl, List, [], ◌∷◌, map, zip, take, replicate, length-replicate, ok, some, arith,
}
use fragging.Scylla.Onion.{last}
use fragging.Sphinx.Constants.{Bytes}
use fragging.Sphinx.Keys.{RoutingKeys, Node}
use fragging.Sphinx.Filler.{new_filler}
use fragging.Sphinx.Routing.{EncapsulatedRoutingInformation, Destination, new_encapsulated}
use fragging.Sphinx.Routing.Reading.{Opens}
use fragging.Sphinx.Routing.Final.{IsFinal}
use fragging.Sphinx.Routing.Journey.{new_encapsulated-Opens}
use fragging.Sphinx.Toy.{toy, toy-IsLawful}

abbrev node : ℕ → Node
node n = record { address = replicate 32 n; pub_key = n ∷ replicate 31 0 }

abbrev hop_keys : ℕ → RoutingKeys
hop_keys n = record {
  stream_cipher_key = replicate 16 n;
  header_integrity_hmac_key = replicate 16 n;
  payload_key = replicate 192 n;
  blinding_factor = replicate 32 n;
}

abbrev all_keys : List RoutingKeys
all_keys = hop_keys 3 ∷ hop_keys 4 ∷ hop_keys 5 ∷ []

abbrev behind : List Node
behind = node 2 ∷ node 7 ∷ []

abbrev waits : List ℕ
waits = 5 ∷ 6 ∷ 8 ∷ []

abbrev goal : Destination
goal = record { address = replicate 32 6; identifier = replicate 16 7 }

new_encapsulated-Opens_example :
    (filler : Bytes) × (info : EncapsulatedRoutingInformation) × (final_keys : RoutingKeys)
    × (new_filler 4 (take 2 all_keys) ≡ ok filler)
    × (new_encapsulated 4 (node 1 ∷ behind) goal waits all_keys filler (λ n. replicate n 9)
        ≡ ok info)
    × (last all_keys ≡ some final_keys)
    × Opens toy-IsLawful 4
        (omega arith)
        (zip (map (λ node. node.address) behind) (take 2 all_keys))
        (take 2 waits)
        (IsFinal toy-IsLawful 4 goal final_keys)
        info
new_encapsulated-Opens_example =
    new_encapsulated-Opens toy-IsLawful 4 (omega arith) (node 1) behind goal waits all_keys
      (λ n. replicate n 9) (omega arith) (omega arith)
      (length-replicate 32 2, (length-replicate 32 7, tt))
      (omega arith, (omega arith, (omega arith, tt))) refl refl (length-replicate 32 6)
      (length-replicate 16 7) (λ n. length-replicate n 9)
