-- ===== src/Sphinx/Header/Journey.antt =====
-- A header of sphinx-benchmarks/src/header/mod.rs that `SphinxHeader::new` makes, and what `process`
-- makes of a header under the right MAC.
use fragging.Common.{
  ℕ, suc, ◌-◌, ◌≤◌, ◌^◌, ◌≡◌, refl, sym, List, ◌∷◌, map, zip, length, take, some, arith, ok,
  slice_prefix, length-map, le→leb, bytes_eq_refl,
}
use fragging.Scylla.Onion.{last}
use fragging.Sphinx.Constants.{Bytes, ErrorKind}
use fragging.Sphinx.Externals.{Externals, IsLawful}
use fragging.Sphinx.Delays.{Delay}
use fragging.Sphinx.Keys.{RoutingKeys, compute_routing_keys}
use fragging.Sphinx.Keys.Agreement.{AllHaveSizes, node_of, hop_keys, hop_keys-derive_material}
use fragging.Sphinx.Routing.{Destination, ParsedRawRoutingInformation, unwrap_routing}
use fragging.Sphinx.Routing.Build.{AllBelow}
use fragging.Sphinx.Routing.Encapsulate.{HaveAddresses}
use fragging.Sphinx.Routing.Reading.{IsSealed, Opens}
use fragging.Sphinx.Routing.Final.{IsFinal}
use fragging.Sphinx.Routing.Journey.{new_encapsulated-Opens}
use fragging.Sphinx.Header.{SphinxHeader, finish, process, new_header}
use fragging.Sphinx.Header.Checks.{verify_mac-eq}

module _ ⦃x : Externals⦄ (laws : IsLawful x) (m : ℕ) (pos : 1 ≤ m) where
  open x use {Scalar}

  -- Under the right MAC, `process` returns what the routing information is parsed to.
  pub process-parsed :
      (header : SphinxHeader) (node_secret_key : Scalar) (keys : RoutingKeys)
      (parsed : ParsedRawRoutingInformation)
      → compute_routing_keys header.shared_secret node_secret_key ≡ ok keys
      → IsSealed laws m pos keys header.routing_info
      → unwrap_routing m header.routing_info.enc_routing_information keys.stream_cipher_key
        ≡ ok parsed
      → process m header node_secret_key ≡ ok (finish header.shared_secret keys parsed)
  unfolding process
  process-parsed header node_secret_key keys parsed h sealed read =
      let info = header.routing_info in
      rw
        (
          h,
          verify_mac-eq laws info.integrity_mac keys.header_integrity_hmac_key
              info.enc_routing_information,
          sym sealed,
          bytes_eq_refl info.integrity_mac,
          read,
        )
        refl

  -- A header for a route, with the keys that its nodes compute and the last of them.
  pub record IsMade (o : Bytes × Scalar) (owners : List (Bytes × Scalar)) (delays : List Delay)
      (dest : Destination) (initial_secret : Scalar) (random : ℕ → Bytes) : Type 0 where
    pub header : SphinxHeader
    pub keys : List RoutingKeys
    pub final_keys : RoutingKeys
    pub returns :
        new_header m initial_secret (map node_of (o ∷ owners)) delays dest random
        ≡ ok (header, map (λ k. k.payload_key) keys)
    pub hopped : hop_keys (map (λ o. o.1) (o ∷ owners)) header.shared_secret ≡ ok keys
    pub count : length keys ≡ suc (length owners)
    pub sizes : AllHaveSizes keys
    pub found : last keys ≡ some final_keys
    pub opens :
        Opens laws m pos
          (zip
            (map (λ node. node.address) (map node_of owners))
            (take (length (map node_of owners)) keys))
          (take (length (map node_of owners)) delays)
          (IsFinal laws m dest final_keys)
          header.routing_info

  pub new_header-IsMade :
      (initial_secret : Scalar) (o : Bytes × Scalar) (owners : List (Bytes × Scalar))
      (delays : List Delay) (dest : Destination) (random : ℕ → Bytes)
      → suc (length owners) ≤ m
      → m ≤ 2 ^ 32
      → HaveAddresses (map node_of owners)
      → AllBelow delays
      → length delays ≡ suc (length owners)
      → length dest.address ≡ 32
      → length dest.identifier ≡ 16
      → ((n : ℕ) → length (random n) ≡ n)
      → IsMade o owners delays dest initial_secret random
  unfolding new_header
  new_header-IsMade initial_secret o owners delays dest random fits low has below hd ha hi fills =
      let route = map node_of (o ∷ owners) in
      let count = length-map owners node_of in
      let (material, derived, hopped, keys_count, sizes) =
        hop_keys-derive_material laws (o ∷ owners) initial_secret in
      let keys = material.routing_keys in
      let (filler, info, final_keys, filled, built, found, opens) =
        new_encapsulated-Opens laws m pos (node_of o) (map node_of owners) dest delays keys random
          (omega (arith, count)) low has below (omega (arith, count, keys_count))
          (omega (arith, count, hd)) ha hi fills in
      let less : length route - 1 ≡ length (map node_of owners) = omega arith in
      record {
        header = record { shared_secret = material.initial_shared_secret; routing_info = info };
        keys = keys;
        final_keys = final_keys;
        returns =
            rw
              (
                derived,
                le→leb 1 (length route) (omega arith),
                less,
                slice_prefix {E = ErrorKind} (length (map node_of owners)) keys
                    (omega (arith, count, keys_count)),
                filled,
                built,
              )
              refl;
        hopped = hopped;
        count = keys_count;
        sizes = sizes;
        found = found;
        opens = opens;
      }
