-- ===== src/Latency/Table/Each.antt =====
-- What holds of every value of a hash map of latency-sim/src/main.rs, under its operations.
use fragging.Common.{
  ℕ, ◌≡◌, refl, sym, ap, ◌∙◌, ==→eq, eq→==, ==→ne, ne→==, [], ◌∷◌, Option, none, some, unwrap,
  >>=-Ensures, Ensures, ◌==◌, Bool-cases, inl, inr,
}
use fragging.Latency.Table.{Table, get, insert, get_mut}

module _ {A : Type 0} where
  -- Every value satisfies `P`, and no key stands twice.
  abbrev pub Each : (A → Type 0) → Table A → Type 0
  Each P [] = Unit
  Each P ((k, a) ∷ table) = P a × ((get k table ≡ none) × Each P table)

  -- What holds of the value that is found, if any.
  abbrev pub IfFound : (A → Type 0) → Option A → Type 0
  IfFound P none = Unit
  IfFound P (some a) = P a

  pub get-Each :
      (P : A → Type 0) (key : ℕ) (table : Table A) → Each P table → IfFound P (get key table)
  unfolding get
  get-Each P key [] h = tt
  get-Each P key ((k, a) ∷ table) h = elim (Bool-cases (k == key)) [
    | inl same ↦ rw (same) (h.0)
    | inr other ↦ rw (other) (get-Each P key table h.1.1)
  ]

  pub found-Each :
      (P : A → Type 0) (key : ℕ) (table : Table A) {a : A}
      → Each P table
      → get key table ≡ some a
      → P a
  found-Each P key table h found = rw (found) at (get-Each P key table h)

  pub get-insert : (key : ℕ) (a : A) (table : Table A) → get key (insert key a table) ≡ some a
  unfolding get insert
  get-insert key a [] = rw (eq→== key key refl) refl
  get-insert key a ((k, b) ∷ table) = elim (Bool-cases (k == key)) [
    | inl same ↦ rw (same, eq→== key key refl) refl
    | inr other ↦ rw (other) (rw (other) (get-insert key a table))
  ]

  pub get-insert_ne :
      (other key : ℕ) (a : A) (table : Table A)
      → ¬ (key ≡ other)
      → get other (insert key a table) ≡ get other table
  unfolding get insert
  get-insert_ne other key a [] h = rw (ne→== key other h) refl
  get-insert_ne other key a ((k, b) ∷ table) h = elim (Bool-cases (k == key)) [
    | inl same ↦
        let differ : ¬ (k ≡ other) = λ e. h (sym (==→eq k key same) ∙ e) in
        rw (same, ne→== key other h, ne→== k other differ) refl
    | inr different ↦ rw (different) (elim (Bool-cases (k == other)) [
      | inl same ↦ rw (same) refl
      | inr differ ↦ rw (differ) (get-insert_ne other key a table h)
    ])
  ]

  pub insert-Each :
      (P : A → Type 0) (key : ℕ) (a : A) (table : Table A)
      → P a
      → Each P table
      → Each P (insert key a table)
  unfolding insert get
  insert-Each P key a [] p h = (p, (refl, tt))
  insert-Each P key a ((k, b) ∷ table) p h = elim (Bool-cases (k == key)) [
    | inl same ↦
        rw (same) (p, (ap (λ (i : ℕ). get i table) (sym (==→eq k key same)) ∙ h.1.0, h.1.1))
    | inr other ↦ rw (other) (
      h.0,
      (
        get-insert_ne k key a table (λ e. ==→ne k key other (sym e)) ∙ h.1.0,
        insert-Each P key a table p h.1.1,
      ),
    )
  ]

  pub Each-map :
      (P Q : A → Type 0) (table : Table A) → ((a : A) → P a → Q a) → Each P table → Each Q table
  Each-map P Q [] f h = tt
  Each-map P Q ((k, a) ∷ table) f h = (f a h.0, (h.1.0, Each-map P Q table f h.1.1))

module _ {A : Type 0} {E : Type 0} where
  pub unwrap-Ensures :
      (P : A → Type 0) (Q : E → Type 0) (found : Option A)
      → IfFound P found
      → Ensures P Q (unwrap found)
  unwrap-Ensures P Q none h = record { holds = tt }
  unwrap-Ensures P Q (some a) h = record { holds = h }

  pub get_mut-Each :
      (P : A → Type 0) (Q : E → Type 0) (key : ℕ) (write : A → A) (table : Table A)
      → ((a : A) → P a → P (write a))
      → Each P table
      → Ensures (Each P) Q (get_mut key write table)
  unfolding get_mut
  get_mut-Each P Q key write table f h =
      >>=-Ensures (unwrap (get key table)) _
        (unwrap-Ensures P Q (get key table) (get-Each P key table h))
        (λ a p. record { holds = insert-Each P key (write a) table (f a p) h })
