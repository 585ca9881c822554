-- ===== src/Scylla/Onion.antt =====
-- The mix format of scylla/src/lib.rs: `Node`, `ProcessedOnion`, `Scylla`, and its methods
-- `header_length`, `wrap` and `process`. Sums of `u32` and `usize` wrap, as in a release build.
pub mod Masks
pub mod Filler
pub mod Header
pub mod Payload
pub mod Process
pub mod Journey
pub mod Wrap
pub mod Size
use fragging.Common.{
  ℕ, ◌+◌, ◌-◌, ◌*◌, ◌%◌, ◌^◌, List, [], ◌∷◌, ◌++◌, length, get_elem?, replicate, Option, none, some,
  Outcome, ok, err, panic, assert, ensure, unwrap, slice, slice_from, ◌>>=◌, ◌>>◌, leb, ◌==◌,
  if◌then◌else◌, bytes_eq, zip, xor, from_be_bytes,
}
use fragging.Scylla.Primitives.{Primitives, Bytes}
use fragging.Scylla.Crypto.{
  Error, mac_mismatch, invalid_header_flag, Flag, flag_byte, kappa, alpha_len, per_hop_meta_length,
  reply_meta_length, h_b, h_rho, rho, h_mu, mu, h_pi, pi, pi_inv,
}

pub record Node (Point : Type 0) : Type 0 where
  pub address : Bytes
  pub public_key : Point

pub data ProcessedOnion : Type 0 where
  -- meta, onion
  relay : Bytes → Bytes → ProcessedOnion
  -- set_id, index, data
  fragment : ℕ → ℕ → Bytes → ProcessedOnion
  -- meta, data
  reply : Bytes → Bytes → ProcessedOnion

pub record Scylla : Type 0 where
  pub max_path_length : ℕ
  pub payload_size : ℕ

abbrev pub bytes_per_hop : ℕ
bytes_per_hop = per_hop_meta_length + kappa + 1

-- `u32` arithmetic.
pub header_length : Scylla → ℕ
header_length s =
    (bytes_per_hop * ((s.max_path_length + 2 ^ 32 - 1) % 2 ^ 32) % 2 ^ 32 + (1 + reply_meta_length))
    % 2 ^ 32

abbrev pub zeros : ℕ → Bytes
zeros n = replicate n 0

-- What `wrap` draws: 64 bytes for the secret, and a filled buffer for each length.
pub record Draws : Type 0 where
  pub wide : Bytes
  pub fill : ℕ → Bytes

-- `&xs[..xs.len() - 1]`, which panics on the empty list.
pub drop_last {ℓ} : {A : Type ℓ} → List A → Outcome Error (List A)
drop_last [] = panic
drop_last (x ∷ []) = ok []
drop_last (x ∷ y ∷ xs) = do rest ← drop_last (y ∷ xs); ok (x ∷ rest)

unfoldable pub last {ℓ} : {A : Type ℓ} → List A → Option A
last [] = none
last (x ∷ []) = some x
last (x ∷ y ∷ xs) = last (y ∷ xs)

abbrev pub tail {ℓ} : {A : Type ℓ} → List A → List A
tail [] = []
tail (x ∷ xs) = xs

module _ ⦃p : Primitives⦄ where
  open p use {Point, Scalar, base_mul, point_mul, scalar_mul, compress, decompress}

  pub from_private_key : Bytes → Scalar → Node Point
  from_private_key address private_key = record {
    address = address;
    public_key = base_mul private_key;
  }

  -- The first loop of `wrap`; the blinded `alpha` and `factor` go to the next round.
  pub shared_secrets : List (Node Point) → Point → Scalar → List Point
  shared_secrets [] alpha factor = []
  shared_secrets (node ∷ path) alpha factor =
      let shared_secret = point_mul node.public_key factor in
      let blinding = h_b alpha shared_secret in
      shared_secret ∷ shared_secrets path (point_mul alpha blinding) (scalar_mul factor blinding)

  -- The filler loop, for a header of length `n`, at index `i`.
  pub filler_loop : ℕ → ℕ → Bytes → List Point → Outcome Error Bytes
  filler_loop n i filler_string [] = ok filler_string
  filler_loop n i filler_string (secret ∷ secrets) = do
    let extended = filler_string ++ zeros bytes_per_hop
    let buffer = rho (h_rho secret) (n + bytes_per_hop)
    assert (leb (i * bytes_per_hop) n)
    mask ← slice_from (n - i * bytes_per_hop) buffer
    filler_loop n (i + 1) (xor extended mask) secrets

  -- The routing information for the next hop, whose MAC covers `beta`.
  pub relay_info : Node Point → Point → Bytes → Bytes
  relay_info next_hop next_secret beta =
      flag_byte Flag.relay
      ∷ (next_hop.address ++ (zeros (per_hop_meta_length - 32) ++ mu (h_mu next_secret) beta))

  -- The loop over the hops from the last to the first, each with the hop that follows it.
  pub layers : ℕ → Point → List (Node Point × Point) → Bytes → Outcome Error Bytes
  layers n shared_secret [] beta = ok beta
  layers n shared_secret ((next_hop, next_secret) ∷ rest) beta = do
    inner ← layers n next_secret rest beta
    let info = relay_info next_hop next_secret inner
    let outer = xor (info ++ inner) (rho (h_rho shared_secret) n)
    assert (length outer == n)
    ok outer

  -- The loop over the secrets from the last to the first.
  unfoldable pub encrypt_layers : List Point → Bytes → Outcome Error Bytes
  encrypt_layers [] payload = ok payload
  encrypt_layers (shared_secret ∷ rest) payload = do
    inner ← encrypt_layers rest payload
    key ← h_pi shared_secret
    pi key inner

  -- The part of `wrap` behind the key agreement.
  pub build :
      Scylla → Draws → List (Node Point) → Point → List Point → Bytes → Bytes → Outcome Error Bytes
  build s draws path alpha_zero [] final_info payload = panic
  build s draws path alpha_zero (first_secret ∷ secrets) final_info payload = do
    let n = header_length s
    inits ← drop_last (first_secret ∷ secrets)
    filler_string ← filler_loop n 0 [] inits
    last_secret ← unwrap (last (first_secret ∷ secrets))
    let buffer = rho (h_rho last_secret) (reply_meta_length + 1)
    assert (leb (length path) s.max_path_length)
    let padding = draws.fill ((s.max_path_length - length path) * bytes_per_hop)
    let innermost = (xor final_info buffer ++ padding) ++ filler_string
    assert (length innermost == n)
    beta ← layers n first_secret (zip (tail path) secrets) innermost
    let gamma = mu (h_mu first_secret) beta
    wrapped ← encrypt_layers (first_secret ∷ secrets) payload
    ok (compress alpha_zero ++ (beta ++ (gamma ++ wrapped)))

  pub wrap : Scylla → Draws → List (Node Point) → Bytes → Bytes → Outcome Error (List Point × Bytes)
  wrap s draws path final_info payload = do
    let secret = p.from_bytes_mod_order_wide draws.wide
    let alpha_zero = base_mul secret
    let secrets = shared_secrets path alpha_zero secret
    output ← build s draws path alpha_zero secrets final_info payload
    ok (secrets, output)

  -- The three arms of `process`, by the first byte of the routing information.
  pub relay_arm : Point → Point → Bytes → Bytes → Bytes → Outcome Error ProcessedOnion
  relay_arm alpha shared_secret info routing delta = do
    meta ← slice 1 (1 + per_hop_meta_length) info
    next_mac ← slice_from (1 + per_hop_meta_length) info
    let blinded_alpha = point_mul alpha (h_b alpha shared_secret)
    rest ← slice_from bytes_per_hop routing
    ok (relay meta (compress blinded_alpha ++ (rest ++ (next_mac ++ delta))))

  pub fragment_arm : Bytes → Bytes → Outcome Error ProcessedOnion
  fragment_arm info delta = do
    index ← slice 1 (1 + kappa) info
    set_id ← slice (1 + kappa) (1 + 2 * kappa) info
    ok (fragment (from_be_bytes set_id) (from_be_bytes index) delta)

  pub reply_arm : Bytes → Bytes → Outcome Error ProcessedOnion
  reply_arm info delta = do meta ← slice 1 (1 + reply_meta_length) info; ok (reply meta delta)

  pub dispatch : Point → Point → Bytes → Bytes → Bytes → Outcome Error ProcessedOnion
  dispatch alpha shared_secret info routing delta = do
    flag ← unwrap (get_elem? info 0)
    if flag == flag_byte Flag.relay
        then relay_arm alpha shared_secret info routing delta
        else if flag == flag_byte Flag.fragment
        then fragment_arm info delta
        else if flag == flag_byte Flag.deliver
        then reply_arm info delta
        else err invalid_header_flag

  pub process : Scylla → Scalar → Bytes → Outcome Error ProcessedOnion
  process s private_key onion = do
    let n = header_length s
    alpha_bytes ← slice 0 alpha_len onion
    alpha ← unwrap (decompress alpha_bytes)
    let shared_secret = point_mul alpha private_key
    beta ← slice alpha_len (alpha_len + n) onion
    expected_gamma ← slice (alpha_len + n) (alpha_len + n + kappa) onion
    ensure (bytes_eq expected_gamma (mu (h_mu shared_secret) beta)) mac_mismatch
    let buffer = rho (h_rho shared_secret) (n + bytes_per_hop)
    let routing = xor (beta ++ zeros bytes_per_hop) buffer
    info ← slice 0 bytes_per_hop routing
    delta ← slice_from (alpha_len + n + kappa) onion
    key ← h_pi shared_secret
    plain ← pi_inv key delta
    dispatch alpha shared_secret info routing plain
