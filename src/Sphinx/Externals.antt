-- ===== src/Sphinx/Externals.antt =====
-- What sphinx-benchmarks/src takes from other crates: Curve25519 and its scalars, HKDF, HMAC, the
-- Lioness wide-block cipher and the AES-CTR stream cipher, as a record of operations. `IsLawful`
-- states what the code relies on.
use fragging.Common.{ℕ, ◌≤◌, ◌<◌, ◌≡◌, Option, length}
use fragging.Sphinx.Constants.{Bytes}
use fragging.Scylla.Primitives.{IsCiphered, IsExpanded}

pub record Externals : Type 1 where
  pub Scalar : Type 0
  -- `(ED25519_BASEPOINT_TABLE * s).to_montgomery()` and `s * point`, points as their 32 bytes.
  pub base_mul : Scalar → Bytes
  pub montgomery_mul : Scalar → Bytes → Bytes
  pub scalar_mul : Scalar → Scalar → Scalar
  pub from_bytes_mod_order : Bytes → Scalar
  -- `Hkdf::<Sha256>::new(None, ikm).expand(info, output)`, for an output of this length.
  pub hkdf_expand : Bytes → Bytes → ℕ → Option Bytes
  -- `Hmac::<Sha256>` under a key, of some bytes.
  pub hmac : Bytes → Bytes → Bytes
  -- `Lioness::new_raw(key)` with `encrypt` and `decrypt` of a block in place.
  pub lioness_encrypt : Bytes → Bytes → Option Bytes
  pub lioness_decrypt : Bytes → Bytes → Option Bytes
  pub digest_result_size : ℕ
  pub raw_key_size : ℕ
  -- `Aes128Ctr::new(key, nonce)` with `apply_keystream(data)`.
  pub apply_keystream : Bytes → Bytes → Bytes → Bytes

pub record IsLawful (x : Externals) : Type 0 where
  -- Scalars act on the group that the base point generates.
  pub base_mul_mul :
      (a b : x.Scalar) → x.base_mul (x.scalar_mul a b) ≡ x.montgomery_mul b (x.base_mul a)
  pub exchange :
      (a b : x.Scalar) → x.montgomery_mul a (x.base_mul b) ≡ x.montgomery_mul b (x.base_mul a)
  pub length-base_mul : (a : x.Scalar) → length (x.base_mul a) ≡ 32
  pub length-montgomery_mul :
      (a : x.Scalar) (point : Bytes) → length (x.montgomery_mul a point) ≡ 32
  pub hkdf_expand-IsExpanded :
      (ikm info : Bytes) (n : ℕ) → n ≤ 8160 → IsExpanded n (x.hkdf_expand ikm info n)
  pub length-hmac : (key text : Bytes) → length (x.hmac key text) ≡ 32
  -- Lioness takes keys of 192 bytes and blocks longer than a digest, and decrypts what it encrypted.
  pub raw_key_size-le : x.raw_key_size ≤ 192
  pub lioness_encrypt-IsCiphered :
      (key block : Bytes)
      → x.digest_result_size < length block
      → IsCiphered (x.lioness_decrypt key) block (x.lioness_encrypt key block)
  -- A stream cipher keeps the length.
  pub length-apply_keystream :
      (key nonce text : Bytes) → length (x.apply_keystream key nonce text) ≡ length text
