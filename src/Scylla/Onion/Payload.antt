-- ===== src/Scylla/Onion/Payload.antt =====
-- The layers of encryption around the payload, and how the hops take them off.
use fragging.Common.{◌≡◌, refl, ◌∙◌, List, [], ◌∷◌, length, Outcome, ok, ◌>>=◌}
use fragging.Scylla.Primitives.{Primitives, IsLawful, Bytes}
use fragging.Scylla.Crypto.{Error, h_pi, pi_inv}
use fragging.Scylla.Crypto.Laws.{
  IsBlock, IsBlock-length, pi-IsInverted, pi_inv-IsInverted, pi_key, h_pi-eq,
}
use fragging.Scylla.Onion.{encrypt_layers}

module _ ⦃p : Primitives⦄ where
  open p use {Point}

  -- What the hops do to a payload, one after the other.
  unfoldable pub decrypt_layers : List Point → Bytes → Outcome Error Bytes
  decrypt_layers [] payload = ok payload
  decrypt_layers (shared_secret ∷ rest) payload = do
    key ← h_pi shared_secret
    plain ← pi_inv key payload
    decrypt_layers rest plain

-- `result` is a payload of the same length, from which `back` restores `payload`.
pub record IsRestored (back : Bytes → Outcome Error Bytes) (payload : Bytes)
    (result : Outcome Error Bytes) : Type 0 where
  pub out : Bytes
  pub returns : result ≡ ok out
  pub same_length : length out ≡ length payload
  pub restored : back out ≡ ok payload

module _ ⦃p : Primitives⦄ (laws : IsLawful p) where
  open p use {Point}

  pub encrypt_layers-IsRestored :
      (secrets : List Point) (payload : Bytes)
      → IsBlock laws payload
      → IsRestored (decrypt_layers secrets) payload (encrypt_layers secrets payload)
  unfolding encrypt_layers decrypt_layers
  encrypt_layers-IsRestored [] payload h = record {
    out = payload;
    returns = refl;
    same_length = refl;
    restored = refl;
  }
  encrypt_layers-IsRestored (s ∷ rest) payload h =
      let ih = encrypt_layers-IsRestored rest payload h in
      let c =
        pi-IsInverted laws (pi_key laws s) ih.out
          (IsBlock-length laws payload ih.out ih.same_length h) in
      record {
        out = c.out;
        returns = rw (ih.returns, h_pi-eq laws s) c.returns;
        same_length = c.same_length ∙ ih.same_length;
        restored = rw (h_pi-eq laws s, c.inverse) ih.restored;
      }

  pub decrypt_layers-IsRestored :
      (secrets : List Point) (payload : Bytes)
      → IsBlock laws payload
      → IsRestored (encrypt_layers secrets) payload (decrypt_layers secrets payload)
  unfolding encrypt_layers decrypt_layers
  decrypt_layers-IsRestored [] payload h = record {
    out = payload;
    returns = refl;
    same_length = refl;
    restored = refl;
  }
  decrypt_layers-IsRestored (s ∷ rest) payload h =
      let c = pi_inv-IsInverted laws (pi_key laws s) payload h in
      let ih =
        decrypt_layers-IsRestored rest c.out (IsBlock-length laws payload c.out c.same_length h) in
      record {
        out = ih.out;
        returns = rw (h_pi-eq laws s, c.returns) ih.returns;
        same_length = ih.same_length ∙ c.same_length;
        restored = rw (ih.restored, h_pi-eq laws s) c.inverse;
      }
