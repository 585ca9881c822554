-- ===== src/Common/Xor.antt =====
-- Bitwise exclusive or of numbers and of byte strings.
use Prim.Native.Nat.{
  ℕ, zero, suc, ◌+◌, ◌*◌, ◌/◌, ◌%◌, ◌≤◌, ◌<◌, min, digits, bitwise, differ, bit_xor,
  bit_xor-bitwise,
}
use mathlib.Core.Path.{◌≡◌, refl, ap, ap₂, ◌∙◌}
use mathlib.Core.List.{List, [], ◌∷◌, ◌++◌}
use native.Mathlib.Omega.{arith}
use native.Mathlib.Nat.{le_refl}
use fragging.Common.Lists.{length, drop, replicate}

-- More fuel than the first number needs changes nothing.
digits_fuel :
    (out : ℕ → ℕ) (digit : ℕ → ℕ → ℕ) (fuel more x y : ℕ)
    → x ≤ fuel
    → x ≤ more
    → digits out digit fuel x y ≡ digits out digit more x y
digits_fuel out digit zero zero x y small small' = refl
digits_fuel out digit zero (suc more) zero y small small' = refl
digits_fuel out digit zero (suc more) (suc x) y small small' = absurd (omega arith)
digits_fuel out digit (suc fuel) zero zero y small small' = refl
digits_fuel out digit (suc fuel) zero (suc x) y small small' = absurd (omega arith)
digits_fuel out digit (suc fuel) (suc more) zero y small small' = refl
digits_fuel out digit (suc fuel) (suc more) (suc x) y small small' =
    rw (digits_fuel out digit fuel more (suc x / 2) (y / 2) (omega arith) (omega arith))

bitwise-suc :
    (out : ℕ → ℕ) (digit : ℕ → ℕ → ℕ) (x y : ℕ)
    → bitwise out digit (suc x) y
      ≡ bitwise out digit (suc x / 2) (y / 2) * 2 + digit (suc x % 2) (y % 2)
bitwise-suc out digit x y =
    let halves =
      digits_fuel out digit x (suc x / 2) (suc x / 2) (y / 2) (omega arith) (le_refl _) in
    omega (arith, halves)

zero-bit_xor : (b : ℕ) → bit_xor 0 b ≡ b
zero-bit_xor b = bit_xor-bitwise 0 b

bit_xor_step : (a b : ℕ) → bit_xor a b ≡ bit_xor (a / 2) (b / 2) * 2 + differ (a % 2) (b % 2)
bit_xor_step zero b = omega (arith, zero-bit_xor b, zero-bit_xor (b / 2))
bit_xor_step (suc a) b = simp bit_xor-bitwise (bitwise-suc (λ y. y) differ a b)

-- Exclusive or of two digits is a digit, and is its own inverse.
differ_digits : (x y : ℕ) → x < 2 → y < 2 → (differ x y < 2) × (differ (differ x y) y ≡ x)
differ_digits zero zero h k = omega arith
differ_digits zero (suc zero) h k = omega arith
differ_digits zero (suc (suc y)) h k = absurd (omega arith)
differ_digits (suc zero) zero h k = omega arith
differ_digits (suc zero) (suc zero) h k = omega arith
differ_digits (suc zero) (suc (suc y)) h k = absurd (omega arith)
differ_digits (suc (suc x)) y h k = absurd (omega arith)

bit_xor_cancel_fuel : (k a b : ℕ) → a + b ≤ k → bit_xor (bit_xor a b) b ≡ a
bit_xor_cancel_fuel zero zero zero h = refl
bit_xor_cancel_fuel zero zero (suc b) h = absurd (omega arith)
bit_xor_cancel_fuel zero (suc a) b h = absurd (omega arith)
bit_xor_cancel_fuel (suc k) a b h =
    let c = bit_xor a b in
    let (small, back) = differ_digits (a % 2) (b % 2) (omega arith) (omega arith) in
    let step : c ≡ bit_xor (a / 2) (b / 2) * 2 + differ (a % 2) (b % 2) = bit_xor_step a b in
    let low : c % 2 ≡ differ (a % 2) (b % 2) = omega arith in
    let high : c / 2 ≡ bit_xor (a / 2) (b / 2) = omega arith in
    let rest = bit_xor_cancel_fuel k (a / 2) (b / 2) (omega arith) in
    let again : bit_xor c b ≡ a / 2 * 2 + a % 2 =
      bit_xor_step c b ∙ rw (low, high) (ap₂ (λ (q r : ℕ). q * 2 + r) rest back) in
    omega arith

-- Exclusive or with the same number twice gives the first number back.
pub bit_xor_cancel : (a b : ℕ) → bit_xor (bit_xor a b) b ≡ a
bit_xor_cancel a b = bit_xor_cancel_fuel (a + b) a b (le_refl _)

-- The shorter string decides the length, as in Rust's `zip`.
unfoldable pub xor : List ℕ → List ℕ → List ℕ
xor [] bs = []
xor (a ∷ as') [] = []
xor (a ∷ as') (b ∷ bs) = bit_xor a b ∷ xor as' bs

pub length-xor : (as' bs : List ℕ) → length (xor as' bs) ≡ min (length as') (length bs)
unfolding xor
length-xor [] bs = omega arith
length-xor (a ∷ as') [] = omega arith
length-xor (a ∷ as') (b ∷ bs) = omega (arith, length-xor as' bs)

pub xor_cancel : (as' bs : List ℕ) → length as' ≤ length bs → xor (xor as' bs) bs ≡ as'
unfolding xor
xor_cancel [] bs h = refl
xor_cancel (a ∷ as') [] h = absurd (omega arith)
xor_cancel (a ∷ as') (b ∷ bs) h = ap₂ ◌∷◌ (bit_xor_cancel a b) (xor_cancel as' bs (omega arith))

pub xor-append :
    (as' cs bs ds : List ℕ)
    → length as' ≡ length bs
    → xor (as' ++ cs) (bs ++ ds) ≡ xor as' bs ++ xor cs ds
unfolding xor
xor-append [] cs [] ds h = refl
xor-append [] cs (b ∷ bs) ds h = absurd (omega arith)
xor-append (a ∷ as') cs [] ds h = absurd (omega arith)
xor-append (a ∷ as') cs (b ∷ bs) ds h =
    ap (λ t. bit_xor a b ∷ t) (xor-append as' cs bs ds (omega arith))

-- What stands beyond the other string is cut off, on either side.
pub xor-append_left :
    (as' cs bs : List ℕ) → length as' ≡ length bs → xor (as' ++ cs) bs ≡ xor as' bs
unfolding xor
xor-append_left [] [] [] h = refl
xor-append_left [] (c ∷ cs) [] h = refl
xor-append_left [] cs (b ∷ bs) h = absurd (omega arith)
xor-append_left (a ∷ as') cs [] h = absurd (omega arith)
xor-append_left (a ∷ as') cs (b ∷ bs) h =
    ap (λ t. bit_xor a b ∷ t) (xor-append_left as' cs bs (omega arith))

pub xor-append_right :
    (as' bs ds : List ℕ) → length as' ≤ length bs → xor as' (bs ++ ds) ≡ xor as' bs
unfolding xor
xor-append_right [] bs ds h = refl
xor-append_right (a ∷ as') [] ds h = absurd (omega arith)
xor-append_right (a ∷ as') (b ∷ bs) ds h =
    ap (λ t. bit_xor a b ∷ t) (xor-append_right as' bs ds (omega arith))

pub drop-xor : (n : ℕ) (as' bs : List ℕ) → drop n (xor as' bs) ≡ xor (drop n as') (drop n bs)
unfolding xor drop
drop-xor zero as' bs = refl
drop-xor (suc n) [] bs = refl
drop-xor (suc n) (a ∷ as') [] = nil-xor (drop n as')
  where
    nil-xor : (cs : List ℕ) → [] ≡ xor cs []
    nil-xor [] = refl
    nil-xor (c ∷ cs) = refl
drop-xor (suc n) (a ∷ as') (b ∷ bs) = drop-xor n as' bs

-- A string of zeros takes the other string's bytes.
pub xor-replicate_zero : (n : ℕ) (bs : List ℕ) → length bs ≡ n → xor (replicate n 0) bs ≡ bs
unfolding xor replicate
xor-replicate_zero zero [] h = refl
xor-replicate_zero zero (b ∷ bs) h = absurd (omega arith)
xor-replicate_zero (suc n) [] h = absurd (omega arith)
xor-replicate_zero (suc n) (b ∷ bs) h =
    ap₂ ◌∷◌ (zero-bit_xor b) (xor-replicate_zero n bs (omega arith))
