-- ===== src/Scylla/Onion/Filler.antt =====
-- The filler loop of `wrap` as a function with no failing slice, and its length.
use fragging.Common.{
  ℕ, suc, ◌+◌, ◌-◌, ◌*◌, ◌≤◌, ◌≡◌, refl, ◌∙◌, List, [], ◌∷◌, ◌++◌, map, length, drop, arith,
  length-append, length-drop, length-replicate, xor, length-xor, ok, slice_from_le, le→leb,
}
use native.Mathlib.Numerals.{add-one}
use fragging.Scylla.Primitives.{Primitives, IsLawful, Bytes}
use fragging.Scylla.Crypto.{Error, h_rho, rho}
use fragging.Scylla.Crypto.Laws.{length-rho}
use fragging.Scylla.Onion.{Node, bytes_per_hop, zeros, drop_last, filler_loop}

abbrev pub front : {A : Type 0} → A → List A → List A
front x [] = []
front x (y ∷ ys) = x ∷ front y ys

pub drop_last-front : {A : Type 0} (x : A) (xs : List A) → drop_last (x ∷ xs) ≡ ok (front x xs)
unfolding drop_last
drop_last-front x [] = refl
drop_last-front x (y ∷ ys) = rw (drop_last-front y ys) refl

module _ ⦃p : Primitives⦄ where
  open p use {Point}

  -- The filler, with no slice that could fail.
  abbrev pub filler_step : ℕ → ℕ → Bytes → Point → Bytes
  filler_step n i acc s =
      xor (acc ++ zeros bytes_per_hop)
        (drop (n - i * bytes_per_hop) (rho (h_rho s) (n + bytes_per_hop)))

  -- The filler for the hops before the last one.
  unfoldable pub filler : ℕ → ℕ → Bytes → Point → List (Node Point × Point) → Bytes
  filler n i acc s [] = acc
  filler n i acc s ((node, s') ∷ rest) = filler n (suc i) (filler_step n i acc s) s' rest

module _ ⦃p : Primitives⦄ (laws : IsLawful p) where
  open p use {Point}

  pub length-filler_step :
      (n i : ℕ) (acc : Bytes) (s : Point)
      → i * bytes_per_hop ≤ n
      → length acc ≡ i * bytes_per_hop
      → length (filler_step n i acc s) ≡ suc i * bytes_per_hop
  length-filler_step n i acc s h e =
      let stream = rho (h_rho s) (n + bytes_per_hop) in
      omega (
        arith,
        length-xor (acc ++ zeros bytes_per_hop) (drop (n - i * bytes_per_hop) stream),
        length-append acc (zeros bytes_per_hop),
        length-replicate {A = ℕ} bytes_per_hop 0,
        length-drop (n - i * bytes_per_hop) stream,
        length-rho laws (h_rho s) (n + bytes_per_hop),
      )

  filler_loop-suc :
      (n i : ℕ) (acc : Bytes) (s : Point) (ss : List Point)
      → i * bytes_per_hop ≤ n
      → filler_loop n i acc (s ∷ ss) ≡ filler_loop n (suc i) (filler_step n i acc s) ss
  unfolding filler_loop
  filler_loop-suc n i acc s ss h =
      let stream = rho (h_rho s) (n + bytes_per_hop) in
      rw
        (
          le→leb (i * bytes_per_hop) n h,
          slice_from_le {E = Error} (n - i * bytes_per_hop) stream
              (omega (arith, length-rho laws (h_rho s) (n + bytes_per_hop))),
          add-one i,
        )
        refl

  -- The loop fails on no index, if the header has room for the hops.
  pub filler_loop-filler :
      (n i : ℕ) (acc : Bytes) (s : Point) (rest : List (Node Point × Point))
      → (i + length rest) * bytes_per_hop ≤ n
      → filler_loop n i acc (front s (map (λ h. h.1) rest)) ≡ ok (filler n i acc s rest)
  unfolding filler
  filler_loop-filler n i acc s [] h = unfold filler_loop in refl
  filler_loop-filler n i acc s ((node, s') ∷ rest) h =
      filler_loop-suc n i acc s (front s' (map (λ h. h.1) rest)) (omega arith)
      ∙ filler_loop-filler n (suc i) (filler_step n i acc s) s' rest (omega arith)

  pub length-filler :
      (n i : ℕ) (acc : Bytes) (s : Point) (rest : List (Node Point × Point))
      → (i + length rest) * bytes_per_hop ≤ n
      → length acc ≡ i * bytes_per_hop
      → length (filler n i acc s rest) ≡ (i + length rest) * bytes_per_hop
  unfolding filler
  length-filler n i acc s [] h e = omega arith
  length-filler n i acc s ((node, s') ∷ rest) h e = omega (
    arith,
    length-filler n (suc i) (filler_step n i acc s) s' rest (omega arith)
        (length-filler_step n i acc s (omega arith) e),
  )
