-- ===== src/Common/BigEndian.antt =====
-- Unsigned integers as big-endian byte strings (`to_be_bytes`, `from_be_bytes`).
use Prim.Native.Nat.{ℕ, zero, suc, ◌+◌, ◌*◌, ◌/◌, ◌%◌, ◌^◌, ◌<◌}
use mathlib.Core.Path.{◌≡◌, refl, ap, ◌∙◌}
use mathlib.Core.List.{List, [], ◌∷◌, ◌++◌}
use native.Mathlib.Nat.{
  pow-suc, one-le-pow, mul_comm, mod-lt, mod-eq_of_lt, div-add-mod, add-mul-mod_self_right,
}
use native.Mathlib.Omega.{arith}
use fragging.Common.Lists.{length, replicate}

-- The lowest `n` bytes of `x`, the highest first.
unfoldable pub to_be_bytes : ℕ → ℕ → List ℕ
to_be_bytes zero x = []
to_be_bytes (suc n) x = (x / 256 ^ n % 256) ∷ to_be_bytes n x

from_be_loop : ℕ → List ℕ → ℕ
from_be_loop acc [] = acc
from_be_loop acc (b ∷ bs) = from_be_loop (acc * 256 + b) bs

unfoldable pub from_be_bytes : List ℕ → ℕ
unfolding from_be_loop
from_be_bytes bs = from_be_loop 0 bs

pub length-to_be_bytes : (n x : ℕ) → length (to_be_bytes n x) ≡ n
unfolding to_be_bytes
length-to_be_bytes zero x = refl
length-to_be_bytes (suc n) x = ap suc (length-to_be_bytes n x)

-- The lowest `n + 1` bytes are one byte before the lowest `n`.
split_byte : (p x : ℕ) → 0 < p → x % (256 * p) ≡ x / p % 256 * p + x % p
split_byte p x h =
    ap (λ (t : ℕ). t % (256 * p)) whole
    ∙ add-mul-mod_self_right low (x / p / 256) (256 * p)
    ∙ mod-eq_of_lt below
  where
    low : ℕ
    low = x / p % 256 * p + x % p

    whole : x ≡ low + x / p / 256 * (256 * p)
    whole = omega (arith, div-add-mod x p, ap (λ (t : ℕ). t * p) (div-add-mod (x / p) 256))

    below : low < 256 * p
    below = grind (arith, mod-lt x h, mod-lt (x / p) {m = 256} (omega arith))

from_be_loop-to_be_bytes :
    (n acc x : ℕ) → from_be_loop acc (to_be_bytes n x) ≡ acc * 256 ^ n + x % 256 ^ n
unfolding from_be_loop to_be_bytes
from_be_loop-to_be_bytes zero acc x = omega arith
from_be_loop-to_be_bytes (suc n) acc x =
    from_be_loop-to_be_bytes n (acc * 256 + x / 256 ^ n % 256) x
    ∙ omega (
      arith,
      ap (λ (t : ℕ). acc * t) (pow-suc 256 n),
      ap (λ (t : ℕ). x % t) (pow-suc 256 n),
      ap (λ (t : ℕ). x % t) (mul_comm (256 ^ n) 256),
      split_byte (256 ^ n) x (one-le-pow n 256 (omega arith)),
    )

pub from_be_bytes-to_be_bytes : (n x : ℕ) → x < 256 ^ n → from_be_bytes (to_be_bytes n x) ≡ x
unfolding from_be_bytes
from_be_bytes-to_be_bytes n x h = omega (arith, from_be_loop-to_be_bytes n 0 x, mod-eq_of_lt h)

-- Leading zeros do not count.
pub from_be_bytes-replicate_zero :
    (n : ℕ) (bs : List ℕ) → from_be_bytes (replicate n 0 ++ bs) ≡ from_be_bytes bs
unfolding from_be_bytes from_be_loop replicate
from_be_bytes-replicate_zero zero bs = refl
from_be_bytes-replicate_zero (suc n) bs = from_be_bytes-replicate_zero n bs
