-- ===== src/Sphinx/Payload.antt =====
-- The payload of sphinx-benchmarks/src/payload/mod.rs: padding, layers of encryption, recovery of
-- the plaintext. A `Payload` is its bytes. The assertion of `recover_plaintext` is for debug builds.
pub mod Recovery
pub mod Layers
use fragging.Common.{
  ℕ, suc, ◌+◌, ◌-◌, List, [], ◌∷◌, ◌++◌, length, take, drop, replicate, Option, none, some, Outcome,
  ok, err, ensure, slice, ◌>>=◌, ◌>>◌, ltb, ◌==◌, if◌then◌else◌, Bool, true, false, ◌&&◌, not,
}
use fragging.Sphinx.Constants.{
  Bytes, Result, invalid_payload, security_parameter, payload_overhead_size, ok_or,
}
use fragging.Sphinx.Externals.{Externals}

abbrev pub Payload : Type 0
Payload = Bytes

-- `iter().all(|b| *b == 0)`
pub all_zero : Bytes → Bool
all_zero [] = true
all_zero (b ∷ bs) = b == 0 && all_zero bs

-- The position of the last 1, from its position in the rest.
abbrev pub one_before : ℕ → Option ℕ → Option ℕ
one_before b (some i) = some (suc i)
one_before b none = if b == 1 then some 0 else none

-- `iter().rposition(|b| *b == 1)`
pub rposition_one : Bytes → Option ℕ
rposition_one [] = none
rposition_one (b ∷ bs) = one_before b (rposition_one bs)

-- The bytes before the position, which must be there.
abbrev pub plaintext_before : Bytes → Option ℕ → Result Bytes
plaintext_before padded_plaintext (some i) = ok (take i padded_plaintext)
plaintext_before padded_plaintext none = err invalid_payload

-- The endless zeros are cut at `payload_size`, so as many of them are enough.
pub set_final_payload : Bytes → ℕ → Payload
set_final_payload plaintext_message payload_size =
    take payload_size
      (replicate security_parameter 0 ++ (plaintext_message ++ (1 ∷ replicate payload_size 0)))

pub recover_plaintext : Payload → Result Bytes
recover_plaintext payload = do
  ensure (all_zero (take security_parameter payload)) invalid_payload
  let padded_plaintext = drop security_parameter payload
  plaintext_before padded_plaintext (rposition_one padded_plaintext)

unfoldable pub from_bytes : Bytes → Result Payload
from_bytes bytes = do
  ensure (not (ltb (length bytes) payload_overhead_size)) invalid_payload
  ok bytes

module _ ⦃x : Externals⦄ where
  pub validate_parameters : ℕ → ℕ → Result (Unit {0})
  validate_parameters payload_size plaintext_len =
      if ltb payload_size payload_overhead_size
      then err invalid_payload
      else if ltb payload_size x.digest_result_size
      then err invalid_payload
      else if ltb (payload_size - payload_overhead_size) plaintext_len
      then err invalid_payload
      else ok tt

  pub add_encryption_layer : Bytes → Payload → Result Payload
  add_encryption_layer payload_enc_key payload = do
    key ← slice 0 x.raw_key_size payload_enc_key
    ok_or (x.lioness_encrypt key payload) invalid_payload

  pub unwrap_layer : Bytes → Payload → Result Payload
  unwrap_layer payload_key payload = do
    key ← slice 0 x.raw_key_size payload_key
    ok_or (x.lioness_decrypt key payload) invalid_payload

  -- The loop over the keys from the last to the first.
  pub add_layers : List Bytes → Payload → Result Payload
  add_layers [] payload = ok payload
  add_layers (payload_key ∷ payload_keys) payload = do
    inner ← add_layers payload_keys payload
    add_encryption_layer payload_key inner

  pub encapsulate_message : Bytes → List Bytes → ℕ → Result Payload
  encapsulate_message plaintext_message payload_keys payload_size = do
    validate_parameters payload_size (length plaintext_message)
    add_layers payload_keys (set_final_payload plaintext_message payload_size)
