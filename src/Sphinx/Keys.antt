-- ===== src/Sphinx/Keys.antt =====
-- The keys of sphinx-benchmarks/src/crypto/keys.rs and header/keys.rs. A public key and a shared secret
-- are the 32 bytes of a point, a private key is its scalar.
pub mod Agreement
use fragging.Common.{
  ℕ, suc, ◌+◌, ◌*◌, ◌≤◌, ◌<◌, ◌≡◌, refl, sym, ap, ◌∙◌, List, [], ◌∷◌, map, length, ok, unwrap,
  slice, slice_le, length-take, length-drop, ◌>>=◌, ◌==◌, if◌then◌else◌, arith, true, false, eq→==,
  Bool, Bool-cases, ==→eq, inl, inr,
}
use fragging.Sphinx.Constants.{Bytes, Result, ErrorKind, security_parameter}
use fragging.Sphinx.Externals.{Externals, IsLawful}

abbrev pub stream_cipher_key_size : ℕ
stream_cipher_key_size = 16

abbrev pub integrity_mac_key_size : ℕ
integrity_mac_key_size = security_parameter

abbrev pub payload_key_size : ℕ
payload_key_size = 192

abbrev pub blinding_factor_size : ℕ
blinding_factor_size = 2 * security_parameter

abbrev pub routing_keys_length : ℕ
routing_keys_length =
    stream_cipher_key_size + integrity_mac_key_size + payload_key_size + blinding_factor_size

abbrev pub hkdf_input_seed : Bytes
hkdf_input_seed =
    68 ∷ 119 ∷ 115 ∷ 116 ∷ 101 ∷ 32 ∷ 109 ∷ 111 ∷ 117 ∷ 32 ∷ 101 ∷ 110 ∷ 97 ∷ 110 ∷ 32 ∷ 109 ∷ 111
    ∷ 120 ∷ 108 ∷ 111 ∷ 32 ∷ 97 ∷ 114 ∷ 107 ∷ 101 ∷ 116 ∷ 97 ∷ 32 ∷ 109 ∷ 97 ∷ 107 ∷ 114 ∷ 117 ∷ 32
    ∷ 107 ∷ 97 ∷ 105 ∷ 32 ∷ 101 ∷ 110 ∷ 97 ∷ 32 ∷ 117 ∷ 112 ∷ 111 ∷ 109 ∷ 111 ∷ 120 ∷ 108 ∷ 105
    ∷ 111 ∷ 32 ∷ 103 ∷ 105 ∷ 97 ∷ 32 ∷ 110 ∷ 97 ∷ 32 ∷ 116 ∷ 111 ∷ 110 ∷ 32 ∷ 116 ∷ 111 ∷ 112 ∷ 111
    ∷ 116 ∷ 104 ∷ 101 ∷ 116 ∷ 105 ∷ 115 ∷ 119 ∷ 32 ∷ 107 ∷ 97 ∷ 105 ∷ 32 ∷ 116 ∷ 104 ∷ 97 ∷ 32 ∷ 107
    ∷ 105 ∷ 110 ∷ 105 ∷ 115 ∷ 119 ∷ 32 ∷ 116 ∷ 104 ∷ 110 ∷ 32 ∷ 103 ∷ 104 ∷ 46 ∷ []

pub record RoutingKeys : Type 0 where
  pub stream_cipher_key : Bytes
  pub header_integrity_hmac_key : Bytes
  pub payload_key : Bytes
  pub blinding_factor : Bytes

-- `Node` of route.rs.
pub record Node : Type 0 where
  pub address : Bytes
  pub pub_key : Bytes

pub record KeyMaterial : Type 0 where
  pub initial_shared_secret : Bytes
  pub routing_keys : List RoutingKeys

module _ ⦃x : Externals⦄ where
  open x use {Scalar, base_mul, montgomery_mul, scalar_mul, from_bytes_mod_order, hkdf_expand}

  -- `PublicKey::from(&private_key)`
  abbrev pub public_key_from : Scalar → Bytes
  public_key_from private_key = base_mul private_key

  abbrev pub diffie_hellman : Scalar → Bytes → Bytes
  diffie_hellman private_key remote_public_key = montgomery_mul private_key remote_public_key

  -- `RoutingKeys::derive`
  pub derive : Bytes → Result RoutingKeys
  derive shared_key = do
    output ← unwrap (hkdf_expand shared_key hkdf_input_seed routing_keys_length)
    stream_cipher_key ← slice 0 stream_cipher_key_size output
    let i = stream_cipher_key_size
    header_integrity_hmac_key ← slice i (i + integrity_mac_key_size) output
    let j = i + integrity_mac_key_size
    payload_key ← slice j (j + payload_key_size) output
    let k = j + payload_key_size
    blinding_factor ← slice k (k + blinding_factor_size) output
    ok (record {
      stream_cipher_key = stream_cipher_key;
      header_integrity_hmac_key = header_integrity_hmac_key;
      payload_key = payload_key;
      blinding_factor = blinding_factor;
    })

  -- The loop of `KeyMaterial::derive` for a route of `route_len` nodes, from index `i` on.
  pub derive_all : ℕ → ℕ → List Node → Scalar → Result (List RoutingKeys)
  derive_all route_len i [] accumulator = ok []
  derive_all route_len i (node ∷ route) accumulator = do
    node_routing_keys ← derive (diffie_hellman accumulator node.pub_key)
    let factor = from_bytes_mod_order node_routing_keys.blinding_factor
    rest ←
        derive_all route_len (i + 1) route
          (if i == route_len + 1 then accumulator else scalar_mul accumulator factor)
    ok (node_routing_keys ∷ rest)

  -- `KeyMaterial::derive`
  pub derive_material : List Node → Scalar → Result KeyMaterial
  derive_material route initial_secret = do
    routing_keys ← derive_all (length route) 0 route initial_secret
    ok (record {
      initial_shared_secret = public_key_from initial_secret;
      routing_keys = routing_keys;
    })

  -- `SphinxHeader::compute_routing_keys`
  abbrev pub compute_routing_keys : Bytes → Scalar → Result RoutingKeys
  compute_routing_keys shared_secret node_secret_key =
      derive (diffie_hellman node_secret_key shared_secret)

  -- `SphinxHeader::blind_the_shared_secret`
  abbrev pub blind_the_shared_secret : Bytes → Bytes → Bytes
  blind_the_shared_secret shared_secret blinding_factor =
      diffie_hellman (from_bytes_mod_order blinding_factor) shared_secret
