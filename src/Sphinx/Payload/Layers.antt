-- ===== src/Sphinx/Payload/Layers.antt =====
-- Encapsulating a message and unwrapping it layer by layer.
use fragging.Common.{
  ℕ, ◌+◌, ◌-◌, ◌≤◌, ◌<◌, ◌≡◌, refl, ◌∙◌, List, [], ◌∷◌, length, take, drop, arith, ok, err,
  slice_le, ◌>>=◌, ltb, not_lt→ltb, ltb→not_lt, Bool-cases, inl, inr,
}
use fragging.Sphinx.Constants.{Bytes, Result, ErrorKind, invalid_payload, payload_overhead_size}
use fragging.Sphinx.Externals.{Externals, IsLawful}
use fragging.Sphinx.Payload.{
  Payload, set_final_payload, recover_plaintext, validate_parameters, add_encryption_layer,
  unwrap_layer, add_layers, encapsulate_message,
}
use fragging.Sphinx.Payload.Recovery.{length-set_final_payload, recover-set_final}

-- Keys of 192 bytes, as the type of a payload key says.
abbrev pub AllKeys : List Bytes → Type 0
AllKeys [] = Unit {0}
AllKeys (key ∷ keys) = (length key ≡ 192) × AllKeys keys

module _ ⦃x : Externals⦄ where
  -- The hops unwrap one after the other, with the keys from the first to the last.
  unfoldable pub unwrap_layers : List Bytes → Payload → Result Payload
  unwrap_layers [] payload = ok payload
  unwrap_layers (key ∷ keys) payload = unwrap_layer key payload >>= unwrap_layers keys

  pub record IsLayered (keys : List Bytes) (payload : Payload) (result : Result Payload)
      : Type 0 where
    pub out : Payload
    pub returns : result ≡ ok out
    pub same_length : length out ≡ length payload
    pub unwraps : unwrap_layers keys out ≡ ok payload

  pub record IsUnwrapped (key : Bytes) (payload : Payload) (result : Result Payload) : Type 0 where
    pub out : Payload
    pub returns : result ≡ ok out
    pub same_length : length out ≡ length payload
    pub unwraps : unwrap_layer key out ≡ ok payload

  -- The parameters that are accepted.
  pub validate_parameters-ok :
      (size n : ℕ)
      → n + payload_overhead_size ≤ size
      → x.digest_result_size ≤ size
      → validate_parameters size n ≡ ok tt
  unfolding validate_parameters
  validate_parameters-ok size n h k =
      rw
        (
          not_lt→ltb size payload_overhead_size (omega arith),
          not_lt→ltb size x.digest_result_size k,
          not_lt→ltb (size - payload_overhead_size) n (omega arith),
        )
        refl

  -- `encapsulate_message` accepts parameters exactly when the message fits beside the overhead and
  -- the size is no less than the cipher's digest; else the error is `invalid_payload`.
  pub validate_parameters-invalid :
      (size n : ℕ)
      → ¬ ((n + payload_overhead_size ≤ size) × (x.digest_result_size ≤ size))
      → validate_parameters size n ≡ err invalid_payload
  unfolding validate_parameters
  validate_parameters-invalid size n h = elim (Bool-cases (ltb size payload_overhead_size)) [
    | inl small ↦ rw small refl
    | inr large ↦ elim (Bool-cases (ltb size x.digest_result_size)) [
      | inl short ↦ rw (large, short) refl
      | inr long ↦ elim (Bool-cases (ltb (size - payload_overhead_size) n)) [
        | inl over ↦ rw (large, long, over) refl
        | inr fits ↦
            let a : payload_overhead_size ≤ size = ltb→not_lt size payload_overhead_size large in
            let b : n ≤ size - payload_overhead_size =
              ltb→not_lt (size - payload_overhead_size) n fits in
            absurd (h (omega arith, ltb→not_lt size x.digest_result_size long))
      ]
    ]
  ]

  -- A message that does not fit is refused before any encryption.
  pub encapsulate_message-invalid :
      (m : Bytes) (keys : List Bytes) (size : ℕ)
      → ¬ ((length m + payload_overhead_size ≤ size) × (x.digest_result_size ≤ size))
      → encapsulate_message m keys size ≡ err invalid_payload
  unfolding encapsulate_message
  encapsulate_message-invalid m keys size h =
      rw (validate_parameters-invalid size (length m) h) refl

module _ ⦃x : Externals⦄ (laws : IsLawful x) where
  layer-IsLayered :
      (key : Bytes) (payload : Payload)
      → length key ≡ 192
      → x.digest_result_size < length payload
      → IsUnwrapped key payload (add_encryption_layer key payload)
  unfolding add_encryption_layer unwrap_layer
  layer-IsLayered key payload hk hp =
      let raw =
        slice_le {E = ErrorKind} 0 x.raw_key_size key (omega arith)
          (omega (arith, laws.raw_key_size-le)) in
      let c = laws.lioness_encrypt-IsCiphered (take (x.raw_key_size - 0) (drop 0 key)) payload hp in
      record {
        out = c.out;
        returns = rw (raw, c.returns) refl;
        same_length = c.same_length;
        unwraps = rw (raw, c.inverse) refl;
      }

  layers-IsLayered :
      (keys : List Bytes) (payload : Payload)
      → AllKeys keys
      → x.digest_result_size < length payload
      → IsLayered keys payload (add_layers keys payload)
  unfolding add_layers unwrap_layers
  layers-IsLayered [] payload hk hp = record {
    out = payload;
    returns = refl;
    same_length = refl;
    unwraps = refl;
  }
  layers-IsLayered (key ∷ keys) payload hk hp =
      let ih = layers-IsLayered keys payload hk.1 hp in
      let one = layer-IsLayered key ih.out hk.0 (omega (arith, ih.same_length)) in
      record {
        out = one.out;
        returns = rw ih.returns one.returns;
        same_length = one.same_length ∙ ih.same_length;
        unwraps = rw one.unwraps ih.unwraps;
      }

  -- A message that fits beside the overhead into a payload above the cipher's block, and keys of 192
  -- bytes: `encapsulate_message` gives a payload of the asked size, and when the hops have unwrapped
  -- it with the keys from the first to the last, `recover_plaintext` returns the message.
  pub recover-encapsulate_message :
      (m : Bytes) (keys : List Bytes) (size : ℕ)
      → length m + payload_overhead_size ≤ size
      → x.digest_result_size < size
      → AllKeys keys
      → (payload : Payload) × (encapsulate_message m keys size ≡ ok payload)
        × (length payload ≡ size)
        × ((unwrap_layers keys payload >>= recover_plaintext) ≡ ok m)
  unfolding encapsulate_message
  recover-encapsulate_message m keys size fits block hk =
      let pad : ℕ = size - (length m + payload_overhead_size) in
      let whole : length m + payload_overhead_size + pad ≡ size = omega arith in
      let n = length-set_final_payload m size pad whole in
      let l = layers-IsLayered keys (set_final_payload m size) hk (omega (arith, n)) in
      (
        l.out,
        rw (validate_parameters-ok size (length m) fits (omega arith)) l.returns,
        l.same_length ∙ n,
        rw l.unwraps (recover-set_final m size pad whole),
      )
