-- ===== src/Scylla/Crypto.antt =====
-- The constants, the error type, and the keyed functions of scylla/src/lib.rs: `xor`, `h_b`,
-- `h_rho`, `rho`, `h_mu`, `mu`, `h_pi`, `pi`, `pi_inv`.
pub mod Laws
use fragging.Common.{
  ℕ, ◌+◌, ◌*◌, List, [], ◌∷◌, ◌++◌, take, Outcome, ok, unwrap, ◌>>=◌, xor as common_xor,
}
use fragging.Scylla.Primitives.{Primitives, Bytes}

abbrev pub kappa : ℕ
kappa = 16

abbrev pub pi_key_size : ℕ
pi_key_size = 192

abbrev pub alpha_len : ℕ
alpha_len = 32

-- NODE_ADDRESS_LENGTH + DELAY_LENGTH + VERSION_LENGTH
abbrev pub per_hop_meta_length : ℕ
per_hop_meta_length = 32 + 8 + 3

abbrev pub final_hop_meta_length : ℕ
final_hop_meta_length = 32

abbrev pub reply_meta_length : ℕ
reply_meta_length = 32 + 16 + 3

pub data Error : Type 0 where
  invalid_fragment_size invalid_path_count mac_mismatch invalid_header_flag : Error
  missing_fragments diverging_paths : Error

pub data Flag : Type 0 where
  deliver relay fragment : Flag

-- `flag as u8`
abbrev pub flag_byte : Flag → ℕ
flag_byte deliver = 0xf0
flag_byte relay = 0xf1
flag_byte fragment = 0xf2

module _ ⦃p : Primitives⦄ where
  open p use {
    Point, Scalar, compress, scalar_from_hash, sha256, hkdf_expand, chacha20_fill, lioness_encrypt,
    lioness_decrypt,
  }

  unfoldable pub h_b : Point → Point → Scalar
  h_b a b = scalar_from_hash ((b'h' ∷ b'_' ∷ b'b' ∷ []) ++ (compress a ++ compress b))

  unfoldable pub h_rho : Point → Bytes
  h_rho a = sha256 ((b'h' ∷ b'_' ∷ b'r' ∷ b'h' ∷ b'o' ∷ []) ++ compress a)

  -- The second argument is the length of the buffer that is filled.
  unfoldable pub rho : Bytes → ℕ → Bytes
  rho key n = chacha20_fill key n

  unfoldable pub h_mu : Point → Bytes
  h_mu a = take kappa (sha256 ((b'h' ∷ b'_' ∷ b'm' ∷ b'u' ∷ []) ++ compress a))

  unfoldable pub mu : Bytes → Bytes → Bytes
  mu key message = take kappa (sha256 ((b'm' ∷ b'u' ∷ []) ++ (key ++ message)))

  unfoldable pub h_pi : Point → Outcome Error Bytes
  h_pi a = unwrap (hkdf_expand (b'h' ∷ b'_' ∷ b'p' ∷ b'i' ∷ []) (compress a) [] pi_key_size)

  -- An empty string is passed through; a block that the cipher refuses is a panic.
  unfoldable pub pi : Bytes → Bytes → Outcome Error Bytes
  pi key [] = ok []
  pi key (b ∷ bs) = unwrap (lioness_encrypt key (b ∷ bs))

  unfoldable pub pi_inv : Bytes → Bytes → Outcome Error Bytes
  pi_inv key [] = ok []
  pi_inv key (b ∷ bs) = unwrap (lioness_decrypt key (b ∷ bs))
