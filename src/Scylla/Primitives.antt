-- ===== src/Scylla/Primitives.antt =====
-- What scylla/src/lib.rs takes from other crates: the group and scalars of curve25519-dalek, the
-- hashes of sha2 and sha3, HKDF, the ChaCha20 generator, and the Lioness wide-block cipher. These
-- are parameters. `IsLawful` states what their documentation promises and the code relies on.
use fragging.Common.{ℕ, ◌+◌, ◌≤◌, ◌<◌, ◌≡◌, Bool, true, Option, some, List, length, take}

abbrev pub Bytes : Type 0
Bytes = List ℕ

pub record Primitives : Type 1 where
  pub Point : Type 0
  pub Scalar : Type 0
  -- `ED25519_BASEPOINT_TABLE * s`, `point * s`, `s * t`, and `==` of points.
  pub base_mul : Scalar → Point
  pub point_mul : Point → Scalar → Point
  pub scalar_mul : Scalar → Scalar → Scalar
  pub point_eq : Point → Point → Bool
  pub from_bytes_mod_order_wide : Bytes → Scalar
  -- `Scalar::from_hash` of a SHA-512 state that was fed these bytes.
  pub scalar_from_hash : Bytes → Scalar
  pub compress : Point → Bytes
  pub decompress : Bytes → Option Point
  -- A digest of the bytes that all `update` calls fed, one after the other.
  pub sha256 : Bytes → Bytes
  pub shake128 : Bytes → ℕ → Bytes
  -- `Hkdf::<Sha256>::new(Some(salt), ikm).expand(info, output)`, for an output of this length.
  pub hkdf_expand : Bytes → Bytes → Bytes → ℕ → Option Bytes
  -- `ChaCha20Rng::from_seed(seed).fill_bytes(output)`, for an output of this length.
  pub chacha20_fill : Bytes → ℕ → Bytes
  pub lioness_encrypt : Bytes → Bytes → Option Bytes
  pub lioness_decrypt : Bytes → Bytes → Option Bytes
  -- Blocks longer than this can be encrypted.
  pub lioness_block : ℕ

-- What encrypting or decrypting a block that is long enough gives.
pub record IsCiphered (back : Bytes → Option Bytes) (block : Bytes) (result : Option Bytes)
    : Type 0 where
  pub out : Bytes
  pub returns : result ≡ some out
  pub same_length : length out ≡ length block
  pub inverse : back out ≡ some block

pub record IsExpanded (n : ℕ) (result : Option Bytes) : Type 0 where
  pub key : Bytes
  pub returns : result ≡ some key
  pub has_length : length key ≡ n

pub record IsLawful (p : Primitives) : Type 0 where
  -- Scalar multiplication is an action on the group that the base point generates.
  pub base_mul_mul : (a b : p.Scalar) → p.base_mul (p.scalar_mul a b) ≡ p.point_mul (p.base_mul a) b
  pub exchange : (a b : p.Scalar) → p.point_mul (p.base_mul a) b ≡ p.point_mul (p.base_mul b) a
  pub point_eq-refl : (a : p.Point) → p.point_eq a a ≡ true
  pub length-compress : (a : p.Point) → length (p.compress a) ≡ 32
  pub decompress-compress : (a : p.Point) → p.decompress (p.compress a) ≡ some a
  pub length-sha256 : (m : Bytes) → length (p.sha256 m) ≡ 32
  pub length-shake128 : (m : Bytes) (n : ℕ) → length (p.shake128 m n) ≡ n
  pub hkdf_expand-IsExpanded :
      (salt ikm info : Bytes) (n : ℕ) → n ≤ 8160 → IsExpanded n (p.hkdf_expand salt ikm info n)
  pub length-chacha20_fill : (seed : Bytes) (n : ℕ) → length (p.chacha20_fill seed n) ≡ n
  -- A longer output begins with the shorter one.
  pub take-chacha20_fill :
      (seed : Bytes) (m n : ℕ) → take m (p.chacha20_fill seed (m + n)) ≡ p.chacha20_fill seed m
  pub lioness_encrypt-IsCiphered :
      (key block : Bytes)
      → p.lioness_block < length block
      → IsCiphered (p.lioness_decrypt key) block (p.lioness_encrypt key block)
  pub lioness_decrypt-IsCiphered :
      (key block : Bytes)
      → p.lioness_block < length block
      → IsCiphered (p.lioness_encrypt key) block (p.lioness_decrypt key block)
