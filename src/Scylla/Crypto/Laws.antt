-- ===== src/Scylla/Crypto/Laws.antt =====
-- Lengths, prefixes and inverses of the keyed functions, from the laws of the primitives.
use fragging.Common.{
  ℕ, ◌+◌, ◌<◌, ◌≡◌, refl, ap, ◌∙◌, sym, ◌⊎◌, inl, inr, [], ◌∷◌, ◌++◌, length, drop,
  take-append-drop, length-take_le, Outcome, ok, unwrap, arith, length-zero→nil,
}
use fragging.Scylla.Primitives.{Primitives, IsLawful, Bytes}
use fragging.Scylla.Crypto.{Error, kappa, pi_key_size, rho, mu, h_pi, pi, pi_inv}

module _ ⦃p : Primitives⦄ (laws : IsLawful p) where
  open p use {Point, lioness_block}

  pub length-rho : (key : Bytes) (n : ℕ) → length (rho key n) ≡ n
  unfolding rho
  length-rho key n = laws.length-chacha20_fill key n

  -- The keystream for a longer buffer, cut in two.
  pub rho-split : (key : Bytes) (m n : ℕ) → rho key (m + n) ≡ rho key m ++ drop m (rho key (m + n))
  unfolding rho
  rho-split key m n =
      sym (take-append-drop m (rho key (m + n)))
      ∙ ap (λ t. t ++ drop m (rho key (m + n))) (laws.take-chacha20_fill key m n)

  pub length-mu : (key message : Bytes) → length (mu key message) ≡ 16
  unfolding mu
  length-mu key message =
      length-take_le kappa (p.sha256 ((b'm' ∷ b'u' ∷ []) ++ (key ++ message)))
        (omega (arith, laws.length-sha256 ((b'm' ∷ b'u' ∷ []) ++ (key ++ message))))

  pub h_pi-ok : (s : Point) → (k : Bytes) × (h_pi s ≡ ok k) × (length k ≡ pi_key_size)
  unfolding h_pi
  h_pi-ok s =
      let e =
        laws.hkdf_expand-IsExpanded (b'h' ∷ b'_' ∷ b'p' ∷ b'i' ∷ []) (p.compress s) [] pi_key_size
          (omega arith) in
      (e.key, ap unwrap e.returns, e.has_length)

  -- The key that `h_pi` derives.
  pub pi_key : Point → Bytes
  pi_key s = (h_pi-ok s).0

  pub h_pi-eq : (s : Point) → h_pi s ≡ ok (pi_key s)
  unfolding pi_key
  h_pi-eq s = (h_pi-ok s).1

  -- A payload that the cipher takes: an empty one, or one longer than its block.
  abbrev pub IsBlock : Bytes → Type 0
  IsBlock d = (d ≡ []) ⊎ (lioness_block < length d)

  pub record IsInverted (back : Bytes → Outcome Error Bytes) (d : Bytes)
      (result : Outcome Error Bytes) : Type 0 where
    pub out : Bytes
    pub returns : result ≡ ok out
    pub same_length : length out ≡ length d
    pub inverse : back out ≡ ok d

  pi-nonempty : (key d : Bytes) → 0 < length d → pi key d ≡ unwrap (p.lioness_encrypt key d)
  unfolding pi
  pi-nonempty key [] h = absurd (omega arith)
  pi-nonempty key (b ∷ bs) h = refl

  pi_inv-nonempty : (key d : Bytes) → 0 < length d → pi_inv key d ≡ unwrap (p.lioness_decrypt key d)
  unfolding pi_inv
  pi_inv-nonempty key [] h = absurd (omega arith)
  pi_inv-nonempty key (b ∷ bs) h = refl

  -- `pi` succeeds on such a payload, keeps its length, and is undone by `pi_inv`.
  pub pi-IsInverted : (key d : Bytes) → IsBlock d → IsInverted (pi_inv key) d (pi key d)
  pi-IsInverted key [] h = record {
    out = [];
    returns = unfold pi in refl;
    same_length = refl;
    inverse = unfold pi_inv in refl;
  }
  pi-IsInverted key (b ∷ bs) (inl e) = absurd (cc)
  pi-IsInverted key (b ∷ bs) (inr h) =
      let c = laws.lioness_encrypt-IsCiphered key (b ∷ bs) h in
      record {
        out = c.out;
        returns = pi-nonempty key (b ∷ bs) (omega arith) ∙ ap unwrap c.returns;
        same_length = c.same_length;
        inverse = pi_inv-nonempty key c.out (omega (arith, c.same_length)) ∙ ap unwrap c.inverse;
      }

  -- And the other way round.
  pub pi_inv-IsInverted : (key d : Bytes) → IsBlock d → IsInverted (pi key) d (pi_inv key d)
  pi_inv-IsInverted key [] h = record {
    out = [];
    returns = unfold pi_inv in refl;
    same_length = refl;
    inverse = unfold pi in refl;
  }
  pi_inv-IsInverted key (b ∷ bs) (inl e) = absurd (cc)
  pi_inv-IsInverted key (b ∷ bs) (inr h) =
      let c = laws.lioness_decrypt-IsCiphered key (b ∷ bs) h in
      record {
        out = c.out;
        returns = pi_inv-nonempty key (b ∷ bs) (omega arith) ∙ ap unwrap c.returns;
        same_length = c.same_length;
        inverse = pi-nonempty key c.out (omega (arith, c.same_length)) ∙ ap unwrap c.inverse;
      }

  -- The length of a payload decides whether it can be ciphered.
  pub IsBlock-length : (d e : Bytes) → length e ≡ length d → IsBlock d → IsBlock e
  IsBlock-length d e h (inl n) = inl (length-zero→nil e (h ∙ ap length n))
  IsBlock-length d e h (inr k) = inr (omega arith)
