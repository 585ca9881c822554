-- ===== src/Sphinx/Header/Build.antt =====
-- `SphinxHeader::new` of sphinx-benchmarks/src/header/mod.rs: it succeeds, and its header has the size
-- that `from_bytes` asks for.
use fragging.Common.{
  [], ℕ, suc, ◌-◌, ◌≤◌, ◌^◌, ◌≡◌, refl, ap, ◌∙◌, List, ◌∷◌, map, length, take, arith, ok,
  slice_prefix, length-take_le, length-map, le→leb,
}
use fragging.Sphinx.Constants.{Bytes, ErrorKind}
use fragging.Sphinx.Externals.{Externals, IsLawful}
use fragging.Sphinx.Delays.{Delay}
use fragging.Sphinx.Keys.{RoutingKeys}
use fragging.Sphinx.Payload.Layers.{AllKeys}
use fragging.Sphinx.Keys.Agreement.{
  AllHaveSizes, node_of, hop_keys-derive_material, secret-derive_material,
}
use fragging.Sphinx.Filler.{length-new_filler}
use fragging.Sphinx.Routing.{Destination}
use fragging.Sphinx.Routing.Build.{AllBelow}
use fragging.Sphinx.Routing.Encapsulate.{HaveAddresses, new_encapsulated-ok}
use fragging.Sphinx.Header.{SphinxHeader, new_header}
use fragging.Sphinx.Header.Codec.{IsSized}

pub payload-AllKeys :
    (keys : List RoutingKeys) → AllHaveSizes keys → AllKeys (map (λ k. k.payload_key) keys)
payload-AllKeys [] h = tt
payload-AllKeys (k ∷ keys) h = (h.0.payload_length, payload-AllKeys keys h.1)

module _ ⦃x : Externals⦄ (laws : IsLawful x) where
  open x use {Scalar}

  -- Where `m` is at most 2^32: for a route of one to `m` nodes whose addresses behind the first have 32 bytes, a delay below 2^64
  -- for each, a destination of 32 and 16 bytes and random bytes as many as asked for, `SphinxHeader::new`
  -- succeeds with a payload key of 192 bytes for each node and a header of a secret of 32 bytes, a MAC of 16 and
  -- routing information of 60 bytes for each of `m` hops, whatever the length of the route.
  pub new_header-IsSized :
      (m : ℕ) (initial_secret : Scalar) (o : Bytes × Scalar) (owners : List (Bytes × Scalar))
      (delays : List Delay) (dest : Destination) (random : ℕ → Bytes)
      → suc (length owners) ≤ m
      → m ≤ 2 ^ 32
      → HaveAddresses (map node_of owners)
      → AllBelow delays
      → length delays ≡ suc (length owners)
      → length dest.address ≡ 32
      → length dest.identifier ≡ 16
      → ((n : ℕ) → length (random n) ≡ n)
      → (header : SphinxHeader) × (keys : List Bytes) × (new_header m initial_secret
            (map node_of (o ∷ owners))
            delays
            dest
            random
          ≡ ok (header, keys))
        × IsSized m header
        × (length keys ≡ suc (length owners))
        × AllKeys keys
  unfolding new_header
  new_header-IsSized m initial_secret o owners delays dest random fits low has below hd ha hi
        fills =
      let route = map node_of (o ∷ owners) in
      let count = length-map owners node_of in
      let (material, derived, _, keys_count, all_sized) =
        hop_keys-derive_material laws (o ∷ owners) initial_secret in
      let keys = material.routing_keys in
      let front = take (length route - 1) keys in
      let front_length : length front ≡ length owners =
        length-take_le (length route - 1) keys (omega arith) ∙ omega arith in
      let (filler, filled, filler_length) = length-new_filler laws m front (omega arith) in
      let (info, built, sizes) =
        new_encapsulated-ok laws m (node_of o) (map node_of owners) dest delays keys filler random
          (omega arith) low has below (omega arith) (omega arith) ha hi (omega arith) fills in
      (
        record { shared_secret = material.initial_shared_secret; routing_info = info },
        map (λ k. k.payload_key) keys,
        rw
            (
              derived,
              le→leb 1 (length route) (omega arith),
              slice_prefix {E = ErrorKind} (length route - 1) keys (omega arith),
              filled,
              built,
            )
            refl,
        record {
          secret_length =
              ap length (secret-derive_material route initial_secret material derived)
              ∙ laws.length-base_mul initial_secret;
          mac_length = sizes.mac_length;
          info_length = sizes.info_length;
        },
        length-map keys (λ (k : RoutingKeys). k.payload_key) ∙ keys_count,
        payload-AllKeys keys all_sized,
      )
