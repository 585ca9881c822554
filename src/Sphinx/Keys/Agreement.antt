-- ===== src/Sphinx/Keys/Agreement.antt =====
-- The keys that the sender derives for a route are those that its nodes compute, one after the other.
use fragging.Common.{
  >>=-eq-ok, ℕ, suc, ◌+◌, ◌≤◌, ◌<◌, ◌≡◌, refl, sym, ap, List, [], ◌∷◌, map, length, take, drop, ok,
  slice_le, length-take, length-drop, length-map, ◌>>=◌, ◌==◌, arith, false, Bool-cases, ==→eq, inl,
  inr,
}
use fragging.Sphinx.Constants.{Bytes, Result, ErrorKind}
use fragging.Sphinx.Externals.{Externals, IsLawful}
use fragging.Sphinx.Keys.{
  RoutingKeys, Node, KeyMaterial, stream_cipher_key_size, integrity_mac_key_size, payload_key_size,
  blinding_factor_size, routing_keys_length, hkdf_input_seed, public_key_from, diffie_hellman,
  derive, derive_all, derive_material, compute_routing_keys, blind_the_shared_secret,
}

-- The sizes that the key types promise.
pub record HasSizes (keys : RoutingKeys) : Type 0 where
  pub stream_length : length keys.stream_cipher_key ≡ stream_cipher_key_size
  pub mac_length : length keys.header_integrity_hmac_key ≡ integrity_mac_key_size
  pub payload_length : length keys.payload_key ≡ payload_key_size
  pub blinding_length : length keys.blinding_factor ≡ blinding_factor_size

abbrev pub AllHaveSizes : List RoutingKeys → Type 0
AllHaveSizes [] = Unit {0}
AllHaveSizes (keys ∷ rest) = HasSizes keys × AllHaveSizes rest

ne→== : (a b : ℕ) → a < b → (a == b) ≡ false
ne→== a b h = elim (Bool-cases (a == b)) [
  | inl same ↦ absurd (omega (arith, ==→eq a b same))
  | inr differ ↦ differ
]

length-cut :
    {A : Type 0} (i n : ℕ) (xs : List A) → i + n ≤ length xs → length (take n (drop i xs)) ≡ n
length-cut i n xs h = omega (arith, length-take n (drop i xs), length-drop i xs)

module _ ⦃x : Externals⦄ where
  open x use {Scalar, base_mul}

  -- A node of a route is told by its address and its private key.
  abbrev pub node_of : Bytes × Scalar → Node
  node_of owner = record { address = owner.0; pub_key = public_key_from owner.1 }

  -- What the nodes compute, each from the blinded secret that the one before it sends on.
  unfoldable pub hop_keys : List Scalar → Bytes → Result (List RoutingKeys)
  hop_keys [] shared_secret = ok []
  hop_keys (node_secret_key ∷ rest) shared_secret = do
    keys ← compute_routing_keys shared_secret node_secret_key
    others ← hop_keys rest (blind_the_shared_secret shared_secret keys.blinding_factor)
    ok (keys ∷ others)

module _ ⦃x : Externals⦄ (laws : IsLawful x) where
  open x use {Scalar, base_mul, scalar_mul, from_bytes_mod_order}

  -- Deriving keys from a shared secret succeeds.
  pub derive-ok :
      (shared_key : Bytes) → (keys : RoutingKeys) × (derive shared_key ≡ ok keys) × HasSizes keys
  unfolding derive
  derive-ok shared_key =
      let o =
        laws.hkdf_expand-IsExpanded shared_key hkdf_input_seed routing_keys_length (omega arith) in
      let n = o.has_length in
      (
        record {
          stream_cipher_key = take 16 (drop 0 o.key);
          header_integrity_hmac_key = take 16 (drop 16 o.key);
          payload_key = take 192 (drop 32 o.key);
          blinding_factor = take 32 (drop 224 o.key);
        },
        rw
            (
              o.returns,
              slice_le {E = ErrorKind} 0 16 o.key (omega arith) (omega arith),
              slice_le {E = ErrorKind} 16 32 o.key (omega arith) (omega arith),
              slice_le {E = ErrorKind} 32 224 o.key (omega arith) (omega arith),
              slice_le {E = ErrorKind} 224 256 o.key (omega arith) (omega arith),
            )
            refl,
        record {
          stream_length = length-cut 0 16 o.key (omega arith);
          mac_length = length-cut 16 16 o.key (omega arith);
          payload_length = length-cut 32 192 o.key (omega arith);
          blinding_length = length-cut 224 32 o.key (omega arith);
        },
      )

  derive_all-hop_keys :
      (owners : List (Bytes × Scalar)) (n i : ℕ) (accumulator : Scalar)
      → i + length owners ≤ n
      → (keys : List RoutingKeys) × (derive_all n i (map node_of owners) accumulator ≡ ok keys)
        × (hop_keys (map (λ o. o.1) owners) (base_mul accumulator) ≡ ok keys)
        × (length keys ≡ length owners)
        × AllHaveSizes keys
  unfolding derive_all hop_keys
  derive_all-hop_keys [] n i accumulator h = ([], refl, refl, refl, tt)
  derive_all-hop_keys (o ∷ owners) n i accumulator h =
      let (keys, derived, sizes) = derive-ok (diffie_hellman o.1 (base_mul accumulator)) in
      let factor = from_bytes_mod_order keys.blinding_factor in
      let (rest, sent, hopped, count, others) =
        derive_all-hop_keys owners n (i + 1) (scalar_mul accumulator factor) (omega arith) in
      let blinded : base_mul (scalar_mul accumulator factor)
          ≡ blind_the_shared_secret (base_mul accumulator) keys.blinding_factor =
        laws.base_mul_mul accumulator factor in
      (
        keys ∷ rest,
        rw (laws.exchange accumulator o.1, derived, ne→== i (n + 1) (omega arith), sent) refl,
        rw (derived, sym blinded, hopped) refl,
        ap suc count,
        (sizes, others),
      )

  -- For every route, `KeyMaterial::derive` succeeds with a set of keys for each node, of the sizes that
  -- their types promise, and the nodes that compute their keys in turn, starting with the initial
  -- shared secret and blinding it from hop to hop, get the same keys.
  pub hop_keys-derive_material :
      (owners : List (Bytes × Scalar)) (initial_secret : Scalar)
      → (material : KeyMaterial) × (derive_material (map node_of owners) initial_secret
          ≡ ok material)
        × (hop_keys (map (λ o. o.1) owners) material.initial_shared_secret
            ≡ ok material.routing_keys)
        × (length material.routing_keys ≡ length owners)
        × AllHaveSizes material.routing_keys
  unfolding derive_material
  hop_keys-derive_material owners initial_secret =
      let route = map node_of owners in
      let (keys, sent, hopped, count, sizes) =
        derive_all-hop_keys owners (length route) 0 initial_secret
          (omega (arith, length-map owners node_of)) in
      (
        record { initial_shared_secret = public_key_from initial_secret; routing_keys = keys },
        rw sent refl,
        hopped,
        count,
        sizes,
      )

module _ ⦃x : Externals⦄ where
  open x use {Scalar}

  -- The initial shared secret is the sender's public key.
  pub secret-derive_material :
      (route : List Node) (initial_secret : Scalar) (material : KeyMaterial)
      → derive_material route initial_secret ≡ ok material
      → material.initial_shared_secret ≡ public_key_from initial_secret
  unfolding derive_material
  secret-derive_material route initial_secret material h =
      let (keys, _, done) = >>=-eq-ok (derive_all (length route) 0 route initial_secret) _ h in
      let same : record {
        initial_shared_secret = public_key_from initial_secret;
        routing_keys = keys;
      }
          ≡ material =
        cc in
      ap (λ (t : KeyMaterial). t.initial_shared_secret) (sym same)
