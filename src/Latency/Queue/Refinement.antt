-- ===== src/Latency/Queue/Refinement.antt =====
-- The queues of latency-sim/src/main.rs against their contract: entries leave by time, and those of
-- one time in the order in which they came. The abstract queue lists the entries as they came.
use fragging.Common.{
  ℕ, append-nil, ◌≤◌, ◌<◌, ◌≡◌, refl, sym, ap, ap₂, ◌∙◌, List, [], ◌∷◌, ◌++◌, Option, none, some,
  leb, leb→le, ◌==◌, eq→==, ne→==, ==→eq, ==→ne, Bool-cases, ◌⊎◌, inl, inr, true, false,
  if◌then◌else◌, arith,
}
use fragging.Latency.Queue.{Queue, insert}
use fragging.Latency.Queue.Order.{
  IsSortedFrom, insert-cons_le, insert-cons_gt, insert-nil, insert-IsSortedFrom, IsSortedFrom-le,
}

module _ {A : Type 0} where
  -- The entries of one time, in their order.
  abbrev pub at : ℕ → Queue A → List A
  at t [] = []
  at t ((s, a) ∷ queue) = if s == t then a ∷ at t queue else at t queue

  pub record Refines (queue arrivals : Queue A) : Type 0 where
    pub sorted : IsSortedFrom 0 queue
    pub same : (t : ℕ) → at t queue ≡ at t arrivals

  -- The first of the earliest entries, and the others.
  abbrev earlier : ℕ → A → Queue A → Option ((ℕ × A) × Queue A) → Option ((ℕ × A) × Queue A)
  earlier t a arrivals none = some ((t, a), arrivals)
  earlier t a arrivals (some ((s, b), rest)) =
      if leb t s then some ((t, a), arrivals) else some ((s, b), (t, a) ∷ rest)

  abbrev pub earliest : Queue A → Option ((ℕ × A) × Queue A)
  earliest [] = none
  earliest ((t, a) ∷ arrivals) = earlier t a arrivals (earliest arrivals)

  at-append : (t : ℕ) (xs ys : Queue A) → at t (xs ++ ys) ≡ at t xs ++ at t ys
  at-append t [] ys = refl
  at-append t ((s, a) ∷ xs) ys = elim (Bool-cases (s == t)) [
    | inl same ↦ rw (same) (ap (λ r. a ∷ r) (at-append t xs ys))
    | inr other ↦ rw (other) (at-append t xs ys)
  ]

  -- Nothing stands before the first time.
  at-before : (t low : ℕ) (queue : Queue A) → t < low → IsSortedFrom low queue → at t queue ≡ []
  at-before t low [] h sorted = refl
  at-before t low ((s, a) ∷ queue) h sorted =
      rw (ne→== s t (omega (arith, sorted.0)))
        (at-before t s queue (omega (arith, sorted.0)) sorted.1)

  at-insert :
      (low u t : ℕ) (a : A) (queue : Queue A)
      → IsSortedFrom low queue
      → at u (insert t a queue) ≡ at u queue ++ at u ((t, a) ∷ [])
  at-insert low u t a [] sorted = rw (insert-nil t a) refl
  at-insert low u t a ((s, b) ∷ queue) sorted = elim (Bool-cases (leb s t)) [
    | inl small ↦
        let rest = at-insert s u t a queue sorted.1 in
        rw (insert-cons_le t a s b queue (leb→le s t small)) (elim (Bool-cases (s == u)) [
          | inl same ↦ rw (same) (ap (λ r. b ∷ r) rest)
          | inr other ↦ rw (other) rest
        ])
    | inr large ↦
        let later : t < s = ground arith in
        rw (insert-cons_gt t a s b queue later) (elim (Bool-cases (t == u)) [
          | inl same ↦
              let first : u < s = ground arith in
              rw (same, ne→== s u (omega arith), at-before u s queue first sorted.1) refl
          | inr other ↦ rw (other) (sym (append-nil (at u ((s, b) ∷ queue))))
        ])
  ]

  pub insert-Refines :
      (t : ℕ) (a : A) (queue arrivals : Queue A)
      → Refines queue arrivals
      → Refines (insert t a queue) (arrivals ++ ((t, a) ∷ []))
  insert-Refines t a queue arrivals r = record {
    sorted = insert-IsSortedFrom 0 t a queue (omega arith) r.sorted;
    same = λ u.
        at-insert 0 u t a queue r.sorted
        ∙ ap (λ r. r ++ at u ((t, a) ∷ [])) (r.same u)
        ∙ sym (at-append u arrivals ((t, a) ∷ []));
  }

  record IsEarliest (arrivals : Queue A) (s : ℕ) (b : A) (rest : Queue A) : Type 0 where
    first : at s arrivals ≡ b ∷ at s rest
    others : (u : ℕ) → ¬ (u ≡ s) → at u arrivals ≡ at u rest
    before : (u : ℕ) → u < s → at u arrivals ≡ []

  abbrev IsFound : Queue A → Option ((ℕ × A) × Queue A) → Type 0
  IsFound arrivals none = arrivals ≡ []
  IsFound arrivals (some ((s, b), rest)) = IsEarliest arrivals s b rest

  earlier-IsFound :
      (t : ℕ) (a : A) (arrivals : Queue A) (found : Option ((ℕ × A) × Queue A))
      → IsFound arrivals found
      → IsFound ((t, a) ∷ arrivals) (earlier t a arrivals found)
  earlier-IsFound t a arrivals none h = record {
    first = rw (eq→== t t refl) refl;
    others = λ u differ. rw (ne→== t u (omega arith)) refl;
    before = λ u less. rw (ne→== t u (omega arith), h) refl;
  }
  earlier-IsFound t a arrivals (some ((s, b), rest)) h = elim (Bool-cases (leb t s)) [
    | inl small ↦ rw (small) (record {
      first = rw (eq→== t t refl) refl;
      others = λ u differ. rw (ne→== t u (omega arith)) refl;
      before = λ u less.
          let reach : t ≤ s = leb→le t s small in
          rw (ne→== t u (omega arith)) (h.before u (omega arith));
    })
    | inr large ↦
        let reach : s < t = ground arith in
        rw (large) (record {
          first = rw (ne→== t s (omega arith)) (h.first);
          others = λ u differ. same_others u differ (Bool-cases (t == u));
          before = λ u less. rw (ne→== t u (omega arith)) (h.before u less);
        })
  ]
    where
      same_others :
          (u : ℕ)
          → ¬ (u ≡ s)
          → (t == u ≡ true) ⊎ (t == u ≡ false)
          → at u ((t, a) ∷ arrivals) ≡ at u ((t, a) ∷ rest)
      same_others u differ (inl same) = rw (same) (ap (λ r. a ∷ r) (h.others u differ))
      same_others u differ (inr other) = rw (other) (h.others u differ)

  earliest-IsFound : (arrivals : Queue A) → IsFound arrivals (earliest arrivals)
  earliest-IsFound [] = refl
  earliest-IsFound ((t, a) ∷ arrivals) =
      earlier-IsFound t a arrivals (earliest arrivals) (earliest-IsFound arrivals)

  -- The first entry of a queue against the earliest arrival.
  abbrev pub IsNext : Queue A → Option ((ℕ × A) × Queue A) → Type 0
  IsNext [] found = found ≡ none
  IsNext ((t, a) ∷ queue) found =
      (rest : Queue A) × ((found ≡ some ((t, a), rest)) × Refines queue rest)

  cons-ne-nil : {a : A} {xs : List A} → ¬ (a ∷ xs ≡ [])
  cons-ne-nil h = cc

  cons-inj : {a b : A} {xs ys : List A} → a ∷ xs ≡ b ∷ ys → (a ≡ b) × (xs ≡ ys)
  cons-inj h = (cc, cc)

  at-cons : (t : ℕ) (a : A) (queue : Queue A) → at t ((t, a) ∷ queue) ≡ a ∷ at t queue
  at-cons t a queue = rw (eq→== t t refl) refl

  at-cons_ne : (u t : ℕ) (a : A) (queue : Queue A) → ¬ (u ≡ t) → at u ((t, a) ∷ queue) ≡ at u queue
  at-cons_ne u t a queue differ = rw (ne→== t u (omega arith)) refl

  -- The first entry's time is the earliest.
  earliest_time :
      (t : ℕ) (a : A) (queue arrivals : Queue A) (s : ℕ) (b : A) (rest : Queue A)
      → Refines ((t, a) ∷ queue) arrivals
      → IsEarliest arrivals s b rest
      → t ≡ s
  earliest_time t a queue arrivals s b rest r h = elim (Bool-cases (leb t s)) [
    | inl small ↦ elim (Bool-cases (leb s t)) [
      | inl large ↦ ground arith
      | inr large ↦
          let less : t < s = ground arith in
          absurd (cons-ne-nil (sym (at-cons t a queue) ∙ r.same t ∙ h.before t less))
    ]
    | inr large ↦
        let less : s < t = ground arith in
        absurd (
          cons-ne-nil (
            sym h.first
            ∙ sym (r.same s)
            ∙ at-before s t ((t, a) ∷ queue) less (omega arith, r.sorted.1)))
  ]

  found-IsNext :
      (queue arrivals : Queue A) (found : Option ((ℕ × A) × Queue A))
      → Refines queue arrivals
      → IsFound arrivals found
      → IsNext queue found
  found-IsNext [] arrivals none r h = refl
  found-IsNext [] arrivals (some ((s, b), rest)) r h =
      absurd (cons-ne-nil (sym h.first ∙ sym (r.same s)))
  found-IsNext ((t, a) ∷ queue) arrivals none r h =
      absurd (cons-ne-nil (sym (at-cons t a queue) ∙ r.same t ∙ ap (at t) h))
  found-IsNext ((t, a) ∷ queue) arrivals (some ((s, b), rest)) r h =
      let when = earliest_time t a queue arrivals s b rest r h in
      let found_at : IsEarliest arrivals t b rest = rw (when) h in
      let heads : (a ∷ at t queue) ≡ (b ∷ at t rest) =
        sym (at-cons t a queue) ∙ r.same t ∙ found_at.first in
      (
        rest,
        (
          ap₂ (λ (u : ℕ) (c : A). some ((u, c), rest)) (sym when) (sym (cons-inj heads).0),
          record {
            sorted = IsSortedFrom-le 0 t queue (omega arith) r.sorted.1;
            same = λ u. same_others u (cons-inj heads).1 (λ differ.
                sym (at-cons_ne u t a queue differ) ∙ r.same u ∙ found_at.others u differ);
          },
        ),
      )
    where
      same_others :
          (u : ℕ)
          → at t queue ≡ at t rest
          → (¬ (u ≡ t) → at u queue ≡ at u rest)
          → at u queue ≡ at u rest
      same_others u same others = elim (Bool-cases (u == t)) [
        | inl equal ↦ rw (==→eq u t equal) same
        | inr differ ↦ others (==→ne u t differ)
      ]

  -- A queue that refines a list of arrivals is empty when that list is; else its first entry is the
  -- earliest arrival, the first of those with its time, and the rest refines the other arrivals.
  pub pop-Refines :
      (queue arrivals : Queue A) → Refines queue arrivals → IsNext queue (earliest arrivals)
  pop-Refines queue arrivals r =
      found-IsNext queue arrivals (earliest arrivals) r (earliest-IsFound arrivals)
