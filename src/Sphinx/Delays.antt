-- ===== src/Sphinx/Delays.antt =====
-- The delays of sphinx-benchmarks/src/header/delays.rs. A `Delay` is its `u64` of nanoseconds; sums and
-- products of `u64` wrap, as in a release build.
use fragging.Common.{
  ℕ, ◌+◌, ◌*◌, ◌%◌, ◌^◌, ◌<◌, ◌≡◌, List, [], ◌∷◌, ◌++◌, arith, to_be_bytes, from_be_bytes,
  from_be_bytes-to_be_bytes,
}
use fragging.Sphinx.Constants.{Bytes, delay_length}

abbrev pub Delay : Type 0
Delay = ℕ

abbrev pub new_from_millis : ℕ → Delay
new_from_millis value = 1000000 * value % 2 ^ 64

abbrev pub to_bytes : Delay → Bytes
to_bytes delay = to_be_bytes delay_length delay

abbrev pub from_bytes : Bytes → Delay
from_bytes delay_bytes = from_be_bytes delay_bytes

abbrev pub add : Delay → Delay → Delay
add delay rhs = (delay + rhs) % 2 ^ 64

-- `iter.fold(Delay(0), |acc, item| acc + item)`
abbrev pub sum_from : Delay → List Delay → Delay
sum_from acc [] = acc
sum_from acc (item ∷ items) = sum_from (add acc item) items

abbrev pub sum : List Delay → Delay
sum delays = sum_from 0 delays

-- The sum without a bound.
abbrev pub total : List ℕ → ℕ
total [] = 0
total (d ∷ ds) = d + total ds

-- A delay of less than 2^64 nanoseconds is read back from the eight bytes it is written as.
pub from_bytes-to_bytes : (delay : Delay) → delay < 2 ^ 64 → from_bytes (to_bytes delay) ≡ delay
from_bytes-to_bytes delay h = from_be_bytes-to_be_bytes 8 delay (omega arith)

sum_from-eq :
    (acc : ℕ) (ds : List Delay) → acc < 2 ^ 64 → sum_from acc ds ≡ (acc + total ds) % 2 ^ 64
sum_from-eq acc [] h = omega arith
sum_from-eq acc (d ∷ ds) h = let ih = sum_from-eq (add acc d) ds (omega arith) in omega arith

-- The sum of delays is their sum as numbers, modulo 2^64: where the partial sums wrap makes no
-- difference, and a sum of two lists is the sum of their sums.
pub sum-eq :
    (ds es : List Delay) → (sum ds ≡ total ds % 2 ^ 64) × (sum (ds ++ es) ≡ add (sum ds) (sum es))
sum-eq ds es =
    let a = sum_from-eq 0 ds (omega arith) in
    let b = sum_from-eq 0 es (omega arith) in
    let c = sum_from-eq 0 (ds ++ es) (omega arith) in
    (omega arith, omega (arith, total-append ds es))
  where
    total-append : (ds es : List ℕ) → total (ds ++ es) ≡ total ds + total es
    total-append [] es = omega arith
    total-append (d ∷ ds) es = omega (arith, total-append ds es)
