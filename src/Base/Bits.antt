-- ===== src/Base/Bits.antt =====
-- `&` and `|` at variables, by their lowest binary digit and then for the masks in use.
use Prim.Native.Nat.{
  ℕ, zero, suc, ◌+◌, ◌-◌, ◌*◌, ◌/◌, ◌%◌, ◌^◌, ◌≤◌, ◌<◌, min, max, bit_and, bit_or, digits,
  bit_and-bitwise, bit_or-bitwise,
}
use mathlib.Core.Path.{◌≡◌, refl}
use native.Mathlib.Nat.{pow-suc, one-le-pow, mul_comm}
use native.Mathlib.Omega.{arith}

-- The count of digits to go does not matter once it is enough.
enough_digits :
    (z : ℕ → ℕ) (f : ℕ → ℕ → ℕ) (n k a b : ℕ) → a ≤ n → a ≤ k → digits z f n a b ≡ digits z f k a b
enough_digits z f zero zero a b p q = refl
enough_digits z f zero (suc k) zero b p q = refl
enough_digits z f zero (suc k) (suc a) b p q = absurd (omega arith)
enough_digits z f (suc n) zero zero b p q = refl
enough_digits z f (suc n) zero (suc a) b p q = absurd (omega arith)
enough_digits z f (suc n) (suc k) zero b p q = refl
enough_digits z f (suc n) (suc k) (suc a) b p q =
    omega (arith, enough_digits z f n k (suc a / 2) (b / 2) (omega arith) (omega arith))

pub and_lowest : (a b : ℕ) → bit_and a b ≡ bit_and (a / 2) (b / 2) * 2 + min (a % 2) (b % 2)
and_lowest zero b = omega (arith, bit_and-bitwise 0 b, bit_and-bitwise 0 (b / 2))
and_lowest (suc a) b = omega (
  arith,
  bit_and-bitwise (suc a) b,
  bit_and-bitwise (suc a / 2) (b / 2),
  enough_digits (λ _. 0) min a (suc a / 2) (suc a / 2) (b / 2) (omega arith) (omega arith),
)

pub or_lowest : (a b : ℕ) → bit_or a b ≡ bit_or (a / 2) (b / 2) * 2 + max (a % 2) (b % 2)
or_lowest zero b = omega (arith, bit_or-bitwise 0 b, bit_or-bitwise 0 (b / 2))
or_lowest (suc a) b = omega (
  arith,
  bit_or-bitwise (suc a) b,
  bit_or-bitwise (suc a / 2) (b / 2),
  enough_digits (λ y. y) max a (suc a / 2) (suc a / 2) (b / 2) (omega arith) (omega arith),
)

and-zero_upto : (n a : ℕ) → a ≤ n → bit_and a 0 ≡ 0
and-zero_upto zero zero h = refl
and-zero_upto zero (suc a) h = absurd (omega arith)
and-zero_upto (suc n) a h = omega (arith, and_lowest a 0, and-zero_upto n (a / 2) (omega arith))

and-zero : (a : ℕ) → bit_and a 0 ≡ 0
and-zero a = and-zero_upto a a (omega arith)

or-zero_upto : (n a : ℕ) → a ≤ n → bit_or a 0 ≡ a
or-zero_upto zero zero h = refl
or-zero_upto zero (suc a) h = absurd (omega arith)
or-zero_upto (suc n) a h = omega (arith, or_lowest a 0, or-zero_upto n (a / 2) (omega arith))

or-zero : (a : ℕ) → bit_or a 0 ≡ a
or-zero a = or-zero_upto a a (omega arith)

-- A number below `2 ^ (k + 1)` is a number below `2 ^ k` and a digit.
mod-double : (a p : ℕ) → 0 < p → a % (2 * p) ≡ a / 2 % p * 2 + a % 2
mod-double a p h = grind arith

pub pow-pos : (k : ℕ) → 0 < 2 ^ k
pow-pos k = one-le-pow k 2 (omega arith)

half_mask : (k : ℕ) → (2 ^ suc k - 1) / 2 ≡ 2 ^ k - 1
half_mask k = omega (arith, pow-suc 2 k, pow-pos k)

-- A mask of `k` ones is the remainder by `2 ^ k`.
pub and_low_mask : (k a : ℕ) → bit_and a (2 ^ k - 1) ≡ a % 2 ^ k
and_low_mask zero a = omega (arith, and-zero a)
and_low_mask (suc k) a =
    let step = rw (half_mask k, and_low_mask k (a / 2)) at (and_lowest a (2 ^ suc k - 1)) in
    let whole : a % 2 ^ suc k ≡ a / 2 % 2 ^ k * 2 + a % 2 =
      rw (pow-suc 2 k, mul_comm (2 ^ k) 2) (mod-double a (2 ^ k) (pow-pos k)) in
    omega (arith, step, whole, pow-suc 2 k, pow-pos k)

pub or_low_mask : (k a : ℕ) → a < 2 ^ k → bit_or a (2 ^ k - 1) ≡ 2 ^ k - 1
or_low_mask zero a h = omega (arith, or-zero a)
or_low_mask (suc k) a h =
    let ih = or_low_mask k (a / 2) (omega (arith, pow-suc 2 k)) in
    let step = rw (half_mask k, ih) at (or_lowest a (2 ^ suc k - 1)) in
    omega (arith, step, pow-suc 2 k, pow-pos k)

pub and_one : (a : ℕ) → bit_and a 1 ≡ a % 2
and_one a = and_low_mask 1 a

pub and_two : (a : ℕ) → bit_and a 2 ≡ a / 2 % 2 * 2
and_two a = omega (arith, and_lowest a 2, and_one (a / 2))

pub and_three : (a : ℕ) → bit_and a 3 ≡ a % 4
and_three a = and_low_mask 2 a

pub and_six : (a : ℕ) → bit_and a 6 ≡ a / 2 % 4 * 2
and_six a = omega (arith, and_lowest a 6, and_three (a / 2))

pub or_one : (a : ℕ) → bit_or a 1 ≡ a / 2 * 2 + 1
or_one a = omega (arith, or_lowest a 1, or-zero (a / 2))

pub or_two : (a : ℕ) → bit_or a 2 ≡ a / 4 * 4 + 2 + a % 2
or_two a = omega (arith, or_lowest a 2, or_one (a / 2))

-- The mask of all but the two lowest bits of a 64-bit word.
pub and_high_mask : (a : ℕ) → a < 2 ^ 64 → bit_and a (2 ^ 64 - 4) ≡ a / 4 * 4
and_high_mask a h =
    omega (
      arith,
      and_lowest a (2 ^ 64 - 4),
      and_lowest (a / 2) (2 ^ 63 - 2),
      and_low_mask 62 (a / 2 / 2),
    )

pub or_high_mask : (a : ℕ) → a < 2 ^ 64 → bit_or a (2 ^ 64 - 4) ≡ 2 ^ 64 - 4 + a % 4
or_high_mask a h = omega (
  arith,
  or_lowest a (2 ^ 64 - 4),
  or_lowest (a / 2) (2 ^ 63 - 2),
  or_low_mask 62 (a / 2 / 2) (omega arith),
)

pub or_nothing : (a : ℕ) → bit_or a 0 ≡ a
or_nothing = or-zero
