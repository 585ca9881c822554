-- ===== src/Latency/Fragments.antt =====
-- The fragments that a user of latency-sim/src/main.rs has of a set: `mark_fragment` and
-- `fragment_set_size` against the question that `step` asks, whether all have arrived.
use fragging.Common.{
  ℕ, zero, suc, ◌+◌, ◌^◌, ◌≤◌, ◌<◌, ◌≡◌, ◌↔◌, refl, sym, ap, ◌∙◌, List, [], ◌∷◌, length, Bool, true,
  false, ◌||◌, Bool-cases, inl, inr, ◌==◌, ne→==, ==→eq, ==→ne, if◌then◌else◌, arith,
}
use fragging.Latency.Table.{get}
use fragging.Latency.Table.Each.{get-insert}
use fragging.Latency.User.{User, set_insert, or_empty, mark_fragment, fragment_set_size}

abbrev pub has : ℕ → List ℕ → Bool
has i [] = false
has i (m ∷ ms) = m == i || has i ms

-- How many of the indexes below `n` are not there.
abbrev missing : ℕ → List ℕ → ℕ
missing zero ms = 0
missing (suc n) ms = if has n ms then missing n ms else suc (missing n ms)

missing-nil : (n : ℕ) → missing n [] ≡ n
missing-nil zero = refl
missing-nil (suc n) = ap suc (missing-nil n)

or-twice : (a b : Bool) → (a || b) ≡ (a || (a || b))
or-twice true b = refl
or-twice false b = refl

or-swap : (a b c : Bool) → (a || (b || c)) ≡ (b || (a || c))
or-swap true true c = refl
or-swap true false c = refl
or-swap false true c = refl
or-swap false false c = refl

has-set_insert : (i m : ℕ) (ms : List ℕ) → has i (set_insert m ms) ≡ (m == i || has i ms)
unfolding set_insert
has-set_insert i m [] = refl
has-set_insert i m (k ∷ ms) = elim (Bool-cases (k == m)) [
  | inl same ↦ let here = ==→eq k m same in rw (same, here) (or-twice (m == i) (has i ms))
  | inr other ↦
      rw (other)
        (ap (λ b. k == i || b) (has-set_insert i m ms) ∙ or-swap (k == i) (m == i) (has i ms))
]

length-set_insert :
    (m : ℕ) (ms : List ℕ)
    → length (set_insert m ms) ≡ (if has m ms then length ms else suc (length ms))
unfolding set_insert
length-set_insert m [] = refl
length-set_insert m (k ∷ ms) = elim (Bool-cases (k == m)) [
  | inl same ↦ rw (same) refl
  | inr other ↦ rw (other) (elim (Bool-cases (has m ms)) [
    | inl old ↦ rw (old) (ap suc (length-set_insert m ms ∙ rw (old) refl))
    | inr fresh ↦ rw (fresh) (ap suc (length-set_insert m ms ∙ rw (fresh) refl))
  ])
]

-- The index is new to `ms`.
missing-same : (n m : ℕ) (ms : List ℕ) → n ≤ m → missing n (set_insert m ms) ≡ missing n ms
missing-same zero m ms h = refl
missing-same (suc n) m ms h =
    rw (has-set_insert n m ms, ne→== m n (omega arith), missing-same n m ms (omega arith)) refl

missing-less :
    (n m : ℕ) (ms : List ℕ)
    → m < n
    → has m ms ≡ false
    → suc (missing n (set_insert m ms)) ≡ missing n ms
missing-less zero m ms h fresh = absurd (omega arith)
missing-less (suc n) m ms h fresh = elim (Bool-cases (m == n)) [
  | inl same ↦
      let here = ==→eq m n same in
      let old : has n ms ≡ false = ap (λ (k : ℕ). has k ms) (sym here) ∙ fresh in
      let now : has n (set_insert m ms) ≡ true = has-set_insert n m ms ∙ rw (same) refl in
      rw (now, old, missing-same n m ms (omega (arith, here))) refl
  | inr other ↦
      let apart = ==→ne m n other in
      let kept : has n (set_insert m ms) ≡ has n ms = has-set_insert n m ms ∙ rw (other) refl in
      rw (kept) (elim (Bool-cases (has n ms)) [
        | inl old ↦ rw (old) (missing-less n m ms (omega (arith, apart)) fresh)
        | inr new ↦ rw (new) (ap suc (missing-less n m ms (omega (arith, apart)) fresh))
      ])
]

-- All indexes below `n` are there when none is missing.
missing-zero : (n : ℕ) (ms : List ℕ) → missing n ms ≡ 0 → (i : ℕ) → i < n → has i ms ≡ true
missing-zero zero ms none_missing i h = absurd (omega arith)
missing-zero (suc n) ms none_missing i h = elim (Bool-cases (has n ms)) [
  | inl there ↦
      let rest : missing n ms ≡ 0 = rw (there) at none_missing in
      elim (Bool-cases (i == n)) [
        | inl same ↦ ap (λ (k : ℕ). has k ms) (==→eq i n same) ∙ there
        | inr other ↦ let apart = ==→ne i n other in missing-zero n ms rest i (omega (arith, apart))
      ]
  | inr gone ↦ let one : suc (missing n ms) ≡ 0 = rw (gone) at none_missing in absurd (omega arith)
]

none-missing : (n : ℕ) (ms : List ℕ) → ((i : ℕ) → i < n → has i ms ≡ true) → missing n ms ≡ 0
none-missing zero ms h = refl
none-missing (suc n) ms h = rw (h n (omega arith)) (none-missing n ms (λ i less. h i (omega arith)))

-- The set a user has after the indexes have come, in their order.
abbrev arrive : List ℕ → List ℕ → List ℕ
arrive [] ms = ms
arrive (i ∷ is') ms = arrive is' (set_insert i ms)

abbrev pub AreBelow : ℕ → List ℕ → Type 0
AreBelow n [] = Unit
AreBelow n (i ∷ is') = (i < n) × AreBelow n is'

set_insert-old : (m : ℕ) (ms : List ℕ) → has m ms ≡ true → set_insert m ms ≡ ms
unfolding set_insert
set_insert-old m [] h = absurd (cc)
set_insert-old m (k ∷ ms) h = elim (Bool-cases (k == m)) [
  | inl same ↦ rw (same) refl
  | inr other ↦
      let later : has m ms ≡ true = rw (other) at h in
      rw (other) (ap (λ rest. k ∷ rest) (set_insert-old m ms later))
]

length-missing :
    (n m : ℕ) (ms : List ℕ)
    → m < n
    → length ms + missing n ms ≡ n
    → length (set_insert m ms) + missing n (set_insert m ms) ≡ n
length-missing n m ms h total = elim (Bool-cases (has m ms)) [
  | inl old ↦ rw (set_insert-old m ms old) total
  | inr fresh ↦
      let longer : length (set_insert m ms) ≡ suc (length ms) =
        length-set_insert m ms ∙ rw (fresh) refl in
      omega (arith, longer, missing-less n m ms h fresh, total)
]

arrive-total :
    (n : ℕ) (xs ms : List ℕ)
    → AreBelow n xs
    → length ms + missing n ms ≡ n
    → length (arrive xs ms) + missing n (arrive xs ms) ≡ n
arrive-total n [] ms h total = total
arrive-total n (i ∷ xs) ms h total =
    arrive-total n xs (set_insert i ms) h.1 (length-missing n i ms h.0 total)

has-arrive : (i : ℕ) (xs ms : List ℕ) → has i (arrive xs ms) ≡ (has i xs || has i ms)
has-arrive i [] ms = refl
has-arrive i (x ∷ xs) ms =
    has-arrive i xs (set_insert x ms)
    ∙ ap (λ b. has i xs || b) (has-set_insert i x ms)
    ∙ or-swap (has i xs) (x == i) (has i ms)
    ∙ or_assoc (x == i) (has i xs) (has i ms)
  where
    or_assoc : (a b c : Bool) → (a || (b || c)) ≡ ((a || b) || c)
    or_assoc true b c = refl
    or_assoc false b c = refl

or-false : (a : Bool) → (a || false) ≡ a
or-false true = refl
or-false false = refl

module _ {Float : Type 0} where
  -- The indexes are marked in their order.
  abbrev pub mark_all : ℕ → List ℕ → User Float → User Float
  mark_all set [] user = user
  mark_all set (i ∷ is') user = mark_all set is' (mark_fragment set i user)

  mark_all-arrive :
      (set : ℕ) (xs : List ℕ) (user : User Float)
      → or_empty (get set (mark_all set xs user).fragments)
        ≡ arrive xs (or_empty (get set user.fragments))
  unfolding mark_fragment
  mark_all-arrive set [] user = refl
  mark_all-arrive set (i ∷ xs) user =
      mark_all-arrive set xs (mark_fragment set i user)
      ∙ ap (λ found. arrive xs (or_empty found)) (get-insert set _ user.fragments)

  -- For a set of fewer than 2^32 fragments, of which a user has none, and indexes within the set that
  -- then come in any order, also again: the number of fragments that the user has is the size of the
  -- set exactly when every index has come.
  pub fragment_set_size-mark_all :
      (n set : ℕ) (xs : List ℕ) (user : User Float)
      → n < 2 ^ 32
      → or_empty (get set user.fragments) ≡ []
      → AreBelow n xs
      → (fragment_set_size set (mark_all set xs user) ≡ n) ↔ ((i : ℕ) → i < n → has i xs ≡ true)
  unfolding fragment_set_size
  fragment_set_size-mark_all n set xs user small nothing below =
      let marked = mark_all-arrive set xs user ∙ ap (arrive xs) nothing in
      let total = arrive-total n xs [] below (omega (arith, missing-nil n)) in
      let size = ap length marked in
      (
        λ full i less.
            sym (or-false (has i xs))
            ∙ sym (has-arrive i xs [])
            ∙ missing-zero n (arrive xs []) (omega (arith, total, size, full, small)) i less,
        λ every.
            let whole =
              none-missing n (arrive xs [])
                (λ i less. has-arrive i xs [] ∙ or-false (has i xs) ∙ every i less) in
            omega (arith, total, size, whole, small),
      )
