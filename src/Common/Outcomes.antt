-- ===== src/Common/Outcomes.antt =====
-- The result of a Rust call: `Ok`, `Err`, or a panic (a failed assertion, an index out of range,
-- an `unwrap` of nothing).
use Prim.Native.Nat.{ℕ, ◌+◌, ◌-◌, ◌≤◌}
use mathlib.Core.Path.{◌≡◌, refl, ap, ◌∙◌}
use mathlib.Core.Bool.{Bool, true, false, ◌&&◌}
use mathlib.Core.List.{List, ◌++◌}
use mathlib.Core.Option.{Option, none, some}
use native.Mathlib.Omega.{arith}
use fragging.Common.Tests.{leb, le→leb, if◌then◌else◌}
use fragging.Common.Lists.{length, length-append, take, drop, take-append, drop-append}

pub data Outcome {ℓ} (E : Type 0) (A : Type ℓ) : Type ℓ where
  ok : A → Outcome E A
  err : E → Outcome E A
  panic : Outcome E A

infixl 5 ◌>>=◌ ◌>>◌
abbrev pub ◌>>=◌ {ℓ κ} :
    {E : Type 0} {A : Type ℓ} {B : Type κ} → Outcome E A → (A → Outcome E B) → Outcome E B
ok a >>= f = f a
err e >>= f = err e
panic >>= f = panic

abbrev pub ◌>>◌ {ℓ} : {E : Type 0} {B : Type ℓ} → Outcome E (Unit {0}) → Outcome E B → Outcome E B
m >> k = m >>= λ _. k

-- Inversion of a successful chain.
pub >>=-eq-ok {ℓ κ} :
    {E : Type 0} {A : Type ℓ} {B : Type κ} (first : Outcome E A) (next : A → Outcome E B) {last : B}
    → (first >>= next) ≡ ok last
    → (mid : A) × (first ≡ ok mid) × (next mid ≡ ok last)
>>=-eq-ok (ok mid) next done = (mid, refl, done)
>>=-eq-ok (err why) next done = absurd (cc)
>>=-eq-ok panic next done = absurd (cc)

-- `if !test { return Err(e) }`
abbrev pub ensure : {E : Type 0} → Bool → E → Outcome E (Unit {0})
ensure true e = ok tt
ensure false e = err e

pub ensure-eq-ok {ℓ} :
    {E : Type 0} {B : Type ℓ} (test : Bool) (e : E) (k : Outcome E B) {b : B}
    → (ensure test e >> k) ≡ ok b
    → (test ≡ true) × (k ≡ ok b)
ensure-eq-ok true e k h = (refl, h)
ensure-eq-ok false e k h = absurd (cc)

-- `assert!(test)`
abbrev pub assert : {E : Type 0} → Bool → Outcome E (Unit {0})
assert true = ok tt
assert false = panic

-- `.unwrap()`
abbrev pub unwrap {ℓ} : {E : Type 0} {A : Type ℓ} → Option A → Outcome E A
unwrap none = panic
unwrap (some a) = ok a

drop_zero {ℓ} : {A : Type ℓ} (xs : List A) → drop 0 xs ≡ xs
unfolding drop
drop_zero xs = refl

module _ {ℓ} {E : Type 0} {A : Type ℓ} where
  -- `&xs[i..j]`
  unfoldable pub slice : ℕ → ℕ → List A → Outcome E (List A)
  slice i j xs = if leb i j && leb j (length xs) then ok (take (j - i) (drop i xs)) else panic

  -- `&xs[i..]`
  unfoldable pub slice_from : ℕ → List A → Outcome E (List A)
  slice_from i xs = if leb i (length xs) then ok (drop i xs) else panic

  pub slice-append :
      (i j : ℕ) (xs ys zs : List A)
      → length xs ≡ i
      → i + length ys ≡ j
      → slice i j (xs ++ (ys ++ zs)) ≡ ok ys
  unfolding slice
  slice-append i j xs ys zs h k =
      rw
        (
          le→leb i j (omega arith),
          le→leb j (length (xs ++ (ys ++ zs)))
              (omega (arith, length-append xs (ys ++ zs), length-append ys zs)),
          drop-append i xs (ys ++ zs) h,
          take-append (j - i) ys zs (omega arith),
        )
        refl

  pub slice_from-append : (i : ℕ) (xs ys : List A) → length xs ≡ i → slice_from i (xs ++ ys) ≡ ok ys
  unfolding slice_from
  slice_from-append i xs ys h =
      rw (le→leb i (length (xs ++ ys)) (omega (arith, length-append xs ys)), drop-append i xs ys h)
        refl

  pub slice_le :
      (i j : ℕ) (xs : List A) → i ≤ j → j ≤ length xs → slice i j xs ≡ ok (take (j - i) (drop i xs))
  unfolding slice
  slice_le i j xs h k = rw (le→leb i j h, le→leb j (length xs) k) refl

  pub slice_from_le : (i : ℕ) (xs : List A) → i ≤ length xs → slice_from i xs ≡ ok (drop i xs)
  unfolding slice_from
  slice_from_le i xs h = rw (le→leb i (length xs) h) refl

  pub slice_prefix : (j : ℕ) (xs : List A) → j ≤ length xs → slice 0 j xs ≡ ok (take j xs)
  slice_prefix j xs h =
      slice_le 0 j xs (omega arith) h
      ∙ ap (λ t. ok (take (j - 0) t)) (drop_zero xs)
      ∙ ap (λ (k : ℕ). ok (take k xs)) (omega arith)

-- What holds of the value of a call that returns, and of the error of one that does not.
abbrev pub Holds {ℓ κ} :
    {E : Type 0} {A : Type ℓ} → (A → Type κ) → (E → Type κ) → Outcome E A → Type κ
Holds P Q (ok a) = P a
Holds P Q (err e) = Q e
Holds P Q panic = Unit

pub record Ensures {ℓ κ} {E : Type 0} {A : Type ℓ} (P : A → Type κ) (Q : E → Type κ)
    (o : Outcome E A) : Type κ where
  pub holds : Holds P Q o

module _ {ℓ κ μ} {E : Type 0} {A : Type ℓ} {B : Type μ} {P : A → Type κ} {R : B → Type κ}
    {Q : E → Type κ} where
  pub >>=-Ensures :
      (first : Outcome E A) (next : A → Outcome E B)
      → Ensures P Q first
      → ((a : A) → P a → Ensures R Q (next a))
      → Ensures R Q (first >>= next)
  >>=-Ensures (ok a) next h k = k a h.holds
  >>=-Ensures (err e) next h k = record { holds = h.holds }
  >>=-Ensures panic next h k = record { holds = tt }

module _ {ℓ κ} {E : Type 0} {A : Type ℓ} {P R : A → Type κ} {Q : E → Type κ} where
  pub Ensures-map : (o : Outcome E A) → ((a : A) → P a → R a) → Ensures P Q o → Ensures R Q o
  Ensures-map (ok a) f h = record { holds = f a h.holds }
  Ensures-map (err e) f h = record { holds = h.holds }
  Ensures-map panic f h = record { holds = tt }

  -- Weaker claims of a value and of an error.
  pub Ensures-weaken :
      {S : E → Type κ} (o : Outcome E A)
      → ((a : A) → P a → R a)
      → ((e : E) → Q e → S e)
      → Ensures P Q o
      → Ensures R S o
  Ensures-weaken (ok a) f g h = record { holds = f a h.holds }
  Ensures-weaken (err e) f g h = record { holds = g e h.holds }
  Ensures-weaken panic f g h = record { holds = tt }

  -- Both of what two proofs tell of a value.
  pub Ensures-both :
      {S : E → Type κ} (o : Outcome E A)
      → Ensures P Q o
      → Ensures R S o
      → Ensures (λ a. P a × R a) Q o
  Ensures-both (ok a) h k = record { holds = (h.holds, k.holds) }
  Ensures-both (err e) h k = record { holds = h.holds }
  Ensures-both panic h k = record { holds = tt }
