-- ===== src/Latency/Queue/Order.antt =====
-- The order of the queues of latency-sim/src/main.rs: what `insert` and a removed first entry do to
-- it.
use fragging.Common.{
  ℕ, ◌≤◌, ◌<◌, ◌≡◌, refl, [], ◌∷◌, leb, le→leb, not_le→leb, leb→le, leb, Bool-cases, inl, inr,
  arith,
}
use fragging.Latency.Queue.{Queue, insert, insert_at, partition_point}

module _ {A : Type 0} where
  -- The times do not decrease, from `low` on.
  abbrev pub IsSortedFrom : ℕ → Queue A → Type 0
  IsSortedFrom low [] = Unit
  IsSortedFrom low ((t, a) ∷ queue) = (low ≤ t) × IsSortedFrom t queue

  pub insert-cons_le :
      (t : ℕ) (a : A) (s : ℕ) (b : A) (queue : Queue A)
      → s ≤ t
      → insert t a ((s, b) ∷ queue) ≡ (s, b) ∷ insert t a queue
  unfolding insert partition_point insert_at
  insert-cons_le t a s b queue h = rw (le→leb s t h) refl

  pub insert-cons_gt :
      (t : ℕ) (a : A) (s : ℕ) (b : A) (queue : Queue A)
      → t < s
      → insert t a ((s, b) ∷ queue) ≡ (t, a) ∷ (s, b) ∷ queue
  unfolding insert partition_point insert_at
  insert-cons_gt t a s b queue h = rw (not_le→leb s t h) refl

  pub insert-nil : (t : ℕ) (a : A) → insert t a [] ≡ (t, a) ∷ []
  unfolding insert partition_point insert_at
  insert-nil t a = refl

  pub insert-IsSortedFrom :
      (low t : ℕ) (a : A) (queue : Queue A)
      → low ≤ t
      → IsSortedFrom low queue
      → IsSortedFrom low (insert t a queue)
  insert-IsSortedFrom low t a [] h sorted = rw (insert-nil t a) (h, tt)
  insert-IsSortedFrom low t a ((s, b) ∷ queue) h sorted = elim (Bool-cases (leb s t)) [
    | inl small ↦
        rw (insert-cons_le t a s b queue (leb→le s t small))
          (sorted.0, insert-IsSortedFrom s t a queue (leb→le s t small) sorted.1)
    | inr large ↦
        let later : t < s = ground arith in
        rw (insert-cons_gt t a s b queue later) (h, (omega arith, sorted.1))
  ]

  pub IsSortedFrom-le :
      (low high : ℕ) (queue : Queue A)
      → low ≤ high
      → IsSortedFrom high queue
      → IsSortedFrom low queue
  IsSortedFrom-le low high [] h sorted = tt
  IsSortedFrom-le low high ((t, a) ∷ queue) h sorted = (omega (arith, sorted.0), sorted.1)
