-- ===== src/Latency/Invariant/Next.antt =====
-- The event that `Simulation::next` of latency-sim/src/main.rs chooses is a first event of its queue,
-- and no queue holds an earlier one.
use fragging.Common.{
  ℕ, ◌≤◌, ◌≡◌, refl, sym, ap, ◌∙◌, [], ◌∷◌, Option, none, some, leb, Bool-cases, inl, inr, ==→eq,
  ◌==◌, eq→==,
}
use fragging.Latency.Queue.{Queue, first_time}
use fragging.Latency.Table.{Table, get}
use fragging.Latency.Table.Each.{Each}
use fragging.Latency.Simulation.{min_by_time, smaller, times}

-- The time is not behind the least one.
abbrev pub IsUpTo : ℕ → Option (ℕ × ℕ) → Type 0
IsUpTo t none = Unit
IsUpTo t (some (id, u)) = t ≤ u

some-inj :
    (k u id t : ℕ) → ◌≡◌ {A = Option (ℕ × ℕ)} (some (k, u)) (some (id, t)) → (k ≡ id) × (u ≡ t)
some-inj k u id t e = (cc, cc)

module _ {A B : Type 0} (queue_of : A → Queue B) where
  abbrev first : A → Option ℕ
  first a = first_time (queue_of a)

  -- The least time is the first time of the queue that its key finds.
  abbrev pub IsLeast : ℕ → ℕ → Table A → Type 0
  IsLeast id t table = (a : A) × ((get id table ≡ some a) × (first a ≡ some t))

  -- What a later entry finds is found past the first.
  IsLeast-skip :
      (id t k : ℕ) (a : A) (table : Table A)
      → get k table ≡ none
      → IsLeast id t table
      → IsLeast id t ((k, a) ∷ table)
  unfolding get
  IsLeast-skip id t k a table fresh (b, (found, starts)) = elim (Bool-cases (k == id)) [
    | inl same ↦
        let lost : get id table ≡ none =
          ap (λ (i : ℕ). get i table) (sym (==→eq k id same)) ∙ fresh in
        absurd (cc)
    | inr differ ↦ (b, (rw (differ) found, starts))
  ]

  smaller-IsLeast :
      (id t k u : ℕ) (a : A) (table : Table A) (least : Option (ℕ × ℕ))
      → first a ≡ some u
      → get k table ≡ none
      → (least ≡ some (id, t) → IsLeast id t table)
      → smaller k u least ≡ some (id, t)
      → IsLeast id t ((k, a) ∷ table)
  unfolding get
  smaller-IsLeast id t k u a table none starts fresh found e =
      let both = some-inj k u id t e in (a, (rw (eq→== k id both.0) refl, starts ∙ ap some both.1))
  smaller-IsLeast id t k u a table (some (other, v)) starts fresh found e =
      elim (Bool-cases (leb u v)) [
        | inl small ↦
            let mine : some (k, u) ≡ some (id, t) = rw (small) at e in
            let both = some-inj k u id t mine in
            (a, (rw (eq→== k id both.0) refl, starts ∙ ap some both.1))
        | inr large ↦
            let theirs : some (other, v) ≡ some (id, t) = rw (large) at e in
            IsLeast-skip id t k a table fresh (found theirs)
      ]

  pub min_by_time-IsLeast :
      (P : A → Type 0) (id t : ℕ) (table : Table A)
      → Each P table
      → min_by_time (times first table) ≡ some (id, t)
      → IsLeast id t table
  unfolding min_by_time times first_time
  min_by_time-IsLeast P id t [] h e = absurd (cc)
  min_by_time-IsLeast P id t ((k, a) ∷ table) h e =
      go (first a) refl (min_by_time-IsLeast P id t table h.1.1) e
    where
      go :
          (start : Option ℕ)
          → first a ≡ start
          → (min_by_time (times first table) ≡ some (id, t) → IsLeast id t table)
          → min_by_time ((k, start) ∷ times first table) ≡ some (id, t)
          → IsLeast id t ((k, a) ∷ table)
      go none starts found e = IsLeast-skip id t k a table h.1.0 (found e)
      go (some u) starts found e =
          smaller-IsLeast id t k u a table (min_by_time (times first table)) starts h.1.0 found e
