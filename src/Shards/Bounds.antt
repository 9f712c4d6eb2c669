-- ===== src/Shards/Bounds.antt =====
-- A power of two of shards, a shift below the width, and an index below the number of shards.
use dashmap.Base.{
  ℕ, zero, suc, ◌+◌, ◌-◌, ◌*◌, ◌/◌, ◌%◌, ◌^◌, ◌≤◌, ◌<◌, ◌≡◌, refl, ◌∙◌, ap, true, some, bit_and,
  ltb, ◌==◌, arith, Bool-cases, inl, inr, ==_iff, lt→ltb, le→ltb,
}
use dashmap.Base.Bits.{and_lowest, and_low_mask, pow-pos}
use dashmap.Base.Outcome.{done, panicked}
use native.Mathlib.Nat.{pow-suc, mod-eq_of_lt}
use dashmap.Shards.{
  trailing_zeros, count_ones, is_power_of_two, ncb, next_power_from, next_power_of_two,
  default_shard_amount, shard_capacity, determine_shard, shard_index,
}

pub two-pow-add : (a b : ℕ) → 2 ^ (a + b) ≡ 2 ^ a * 2 ^ b
two-pow-add zero b =
    let e : 0 + b ≡ b = omega arith in let one : 2 ^ b ≡ 1 * 2 ^ b = omega arith in rw e one
two-pow-add (suc a) b =
    let e : 2 ^ (suc a + b) ≡ 2 ^ suc (a + b) = ap (λ (t : ℕ). 2 ^ t) (omega arith) in
    e ∙ rw (pow-suc 2 (a + b), pow-suc 2 a, two-pow-add a b) (omega arith)

count_ones-zero : (bits n : ℕ) → n < 2 ^ bits → count_ones bits n ≡ 0 → n ≡ 0
unfolding count_ones
count_ones-zero zero n h e = omega arith
count_ones-zero (suc bits) n h e =
    let half = count_ones-zero bits (n / 2) (omega (arith, pow-suc 2 bits)) (omega arith) in
    omega arith

-- A number with one digit set is two to the number of zeros below it.
power-trailing_zeros :
    (bits n : ℕ)
    → n < 2 ^ bits
    → count_ones bits n ≡ 1
    → (n ≡ 2 ^ trailing_zeros bits n) × (trailing_zeros bits n < bits)
unfolding count_ones trailing_zeros
power-trailing_zeros zero n h e = cc
power-trailing_zeros (suc bits) n h e = elim (Bool-cases (n % 2 == 0)) [
  | inl even ↦
      let digit : n % 2 ≡ 0 = (==_iff _ _).0 even in
      let (power, below) =
        power-trailing_zeros bits (n / 2) (omega (arith, pow-suc 2 bits)) (omega arith) in
      let double : n ≡ 2 ^ suc (trailing_zeros bits (n / 2)) =
        omega (arith, pow-suc 2 (trailing_zeros bits (n / 2))) in
      rw (even, trailing_zeros) (double, omega arith)
  | inr odd ↦
      let half : count_ones bits (n / 2) ≡ 0 = ground arith in
      let rest = count_ones-zero bits (n / 2) (omega (arith, pow-suc 2 bits)) half in
      rw (odd, trailing_zeros) (ground arith, omega arith)
]

lt-quotient : (x a b : ℕ) → 0 < b → x < a * b → x / b < a
lt-quotient x a b p h = grind arith

-- For a map of 2 ^ b shards, b from 1 to 64, whose shift is 64 - b, the shift is below the width of
-- a word and `determine_shard` returns for every hash an index below the number of shards:
-- `unreachable!` is never reached, and the unchecked hint of a release build is sound. The index does
-- not depend on the seven highest bits of the hash. With one shard, which the constructor refuses,
-- the shift would be 64 and every call would panic.
pub determine_shard_lem :
    (b hash : ℕ)
    → 1 ≤ b
    → b ≤ 64
    → (determine_shard (64 - b) (2 ^ b) hash ≡ done (shard_index (64 - b) hash))
      × (shard_index (64 - b) hash < 2 ^ b)
      × (shard_index (64 - b) hash ≡ shard_index (64 - b) (hash % 2 ^ 57))
      × (determine_shard 64 1 hash ≡ panicked)
unfolding determine_shard
determine_shard_lem b hash some_shards h =
    let idx = hash * 2 ^ 7 % 2 ^ 64 / 2 ^ (64 - b) in
    let sum : b + (64 - b) ≡ 64 = omega arith in
    let width : 2 ^ 64 ≡ 2 ^ b * 2 ^ (64 - b) = rw sum at (two-pow-add b (64 - b)) in
    let below : idx < 2 ^ b =
      lt-quotient (hash * 2 ^ 7 % 2 ^ 64) (2 ^ b) (2 ^ (64 - b)) (pow-pos (64 - b))
        (rw (← width) (omega arith)) in
    let low : hash * 2 ^ 7 % 2 ^ 64 ≡ hash % 2 ^ 57 * 2 ^ 7 % 2 ^ 64 = omega arith in
    (
      rw (lt→ltb (64 - b) 64 (omega arith), lt→ltb idx (2 ^ b) below),
      below,
      ap (λ (x : ℕ). x / 2 ^ (64 - b)) low,
      refl,
    )

halve-div : (a p : ℕ) → 0 < p → a / (p * 2) ≡ a / 2 / p
halve-div a p h = grind arith

-- `!(2 ^ k - 1)` clears the `k` lowest digits.
and_multiple : (k j a : ℕ) → a < 2 ^ (k + j) → bit_and a ((2 ^ j - 1) * 2 ^ k) ≡ a / 2 ^ k * 2 ^ k
and_multiple zero j a h =
    let whole : (2 ^ j - 1) * 2 ^ 0 ≡ 2 ^ j - 1 = omega arith in
    let e : 0 + j ≡ j = omega arith in
    rw (whole, and_low_mask j a, mod-eq_of_lt (rw e at h)) (omega arith)
and_multiple (suc k) j a h =
    let mask : ℕ = (2 ^ j - 1) * 2 ^ k in
    let double : (2 ^ j - 1) * 2 ^ suc k ≡ mask * 2 = rw (pow-suc 2 k) (omega arith) in
    let half : mask * 2 / 2 ≡ mask = omega arith in
    let ih = and_multiple k j (a / 2) (omega (arith, pow-suc 2 (k + j), more)) in
    let lowest = rw (half, ih) at (and_lowest a (mask * 2)) in
    let halves : a / 2 ^ suc k ≡ a / 2 / 2 ^ k =
      rw (pow-suc 2 k) (halve-div a (2 ^ k) (pow-pos k)) in
    rw (double, halves) (omega (arith, lowest, ap (λ (t : ℕ). a / 2 / 2 ^ k * t) (pow-suc 2 k)))
  where
    more : 2 ^ (suc k + j) ≡ 2 ^ suc (k + j)
    more = let e : suc k + j ≡ suc (k + j) = omega arith in rw e

-- For a word that `is_power_of_two` accepts, `ncb` is its logarithm, and is below 64.
pub ncb_lem : (n : ℕ) → n < 2 ^ 64 → is_power_of_two n ≡ true → (n ≡ 2 ^ ncb n) × (ncb n < 64)
unfolding is_power_of_two ncb
ncb_lem n small h = power-trailing_zeros 64 n small ((==_iff _ _).0 h)

one-less : (p q : ℕ) → 0 < p → (p - 1) * q + q ≡ q * p
one-less zero q pos = absurd (omega arith)
one-less (suc p) q pos = let e : suc p - 1 ≡ p = omega arith in rw e (omega arith)

-- For 2 ^ k shards, k at most 64, and a capacity that does not overflow when it is rounded up, the
-- shards together have room for the capacity, and for less than one more entry for each shard.
pub shard_capacity_lem :
    (k capacity : ℕ)
    → k ≤ 64
    → capacity + (2 ^ k - 1) < 2 ^ 64
    → (cps : ℕ) × (shard_capacity capacity (2 ^ k) ≡ done cps)
      × (capacity ≤ cps * 2 ^ k)
      × (cps * 2 ^ k < capacity + 2 ^ k)
unfolding shard_capacity
shard_capacity_lem k capacity h fits = elim (Bool-cases (capacity == 0)) [
  | inl zero_asked ↦
      let none_asked : capacity ≡ 0 = (==_iff _ _).0 zero_asked in
      (0, rw zero_asked, omega arith, omega (arith, pow-pos k))
  | inr asked ↦
      let top : ℕ = capacity + (2 ^ k - 1) in
      let sum : k + (64 - k) ≡ 64 = omega arith in
      let width : 2 ^ 64 ≡ 2 ^ k * 2 ^ (64 - k) = rw sum at (two-pow-add k (64 - k)) in
      let mask : 2 ^ 64 - 1 - (2 ^ k - 1) ≡ (2 ^ (64 - k) - 1) * 2 ^ k =
        omega (arith, width, pow-pos k, one-less (2 ^ (64 - k)) (2 ^ k) (pow-pos (64 - k))) in
      let cleared = and_multiple k (64 - k) top (rw sum fits) in
      (
        top / 2 ^ k,
        rw (
          asked,
          lt→ltb top (2 ^ 64) fits,
          mask,
          cleared,
          multiple-div (top / 2 ^ k) (2 ^ k) (pow-pos k),
        ),
        round_up capacity (2 ^ k) (pow-pos k),
        round_down capacity (2 ^ k) (pow-pos k),
      )
]
  where
    multiple-div : (q p : ℕ) → 0 < p → q * p / p ≡ q
    multiple-div q p pos = grind arith

    round_up : (c p : ℕ) → 0 < p → c ≤ (c + (p - 1)) / p * p
    round_up c p pos = grind arith

    round_down : (c p : ℕ) → 0 < p → (c + (p - 1)) / p * p < c + p
    round_down c p pos = grind arith

next_power_from_lem :
    (bits j n : ℕ)
    → n ≤ 2 ^ (j + bits)
    → (p : ℕ) × (next_power_from (suc bits) (2 ^ j) n ≡ done (2 ^ p))
      × (n ≤ 2 ^ p)
      × (j ≤ p)
      × (p ≤ j + bits)
unfolding next_power_from
next_power_from_lem zero j n h =
    let e : j + 0 ≡ j = omega arith in
    (j, rw (le→ltb (2 ^ j) n (rw e at h)), rw e at h, omega arith, omega arith)
next_power_from_lem (suc bits) j n h = elim (Bool-cases (ltb (2 ^ j) n)) [
  | inr reached ↦ (j, rw reached, ground arith, omega arith, omega arith)
  | inl below ↦
      let sum : j + suc bits ≡ suc j + bits = omega arith in
      let double : 2 * 2 ^ j ≡ 2 ^ suc j = rw (pow-suc 2 j) (omega arith) in
      let (p, run, up, low, high) = next_power_from_lem bits (suc j) n (rw (← sum) h) in
      (p, rw (below, double) run, up, omega arith, omega arith)
]

-- For a parallelism from 1 to 2 ^ 61 the default number of shards is a power of two below 2 ^ 64,
-- and at least four times the parallelism.
pub default_shard_amount_lem :
    (parallelism : ℕ)
    → 1 ≤ parallelism
    → parallelism ≤ 2 ^ 61
    → (p : ℕ) × (default_shard_amount (some parallelism) ≡ done (2 ^ p))
      × (parallelism * 4 ≤ 2 ^ p)
      × (p < 64)
unfolding default_shard_amount next_power_of_two
default_shard_amount_lem parallelism low high =
    let (p, run, up, _, top) = next_power_from_lem 63 0 (parallelism * 4) (omega arith) in
    (p, rw (lt→ltb (parallelism * 4) (2 ^ 64) (omega arith)) run, up, omega arith)

power-lt : (p b : ℕ) → p < b → 2 ^ p < 2 ^ b
power-lt p zero h = absurd (omega arith)
power-lt zero (suc b) h = omega (arith, pow-suc 2 b, pow-pos b)
power-lt (suc p) (suc b) h = omega (arith, pow-suc 2 p, pow-suc 2 b, power-lt p b (omega arith))

count_ones-none : (bits : ℕ) → count_ones bits 0 ≡ 0
unfolding count_ones
count_ones-none zero = refl
count_ones-none (suc bits) = omega (arith, count_ones-none bits)

ones-and-zeros :
    (bits p : ℕ) → p < bits → (count_ones bits (2 ^ p) ≡ 1) × (trailing_zeros bits (2 ^ p) ≡ p)
unfolding count_ones trailing_zeros
ones-and-zeros zero p h = absurd (omega arith)
ones-and-zeros (suc bits) zero h = (omega (arith, count_ones-none bits), refl)
ones-and-zeros (suc bits) (suc p) h =
    let half : 2 ^ suc p / 2 ≡ 2 ^ p = omega (arith, pow-suc 2 p) in
    let even : 2 ^ suc p % 2 ≡ 0 = omega (arith, pow-suc 2 p) in
    let (ones, zeros) = ones-and-zeros bits p (omega arith) in
    (rw (even, half) (omega (arith, ones)), rw (half, even, zeros))

-- What the constructor asserts of a power of two, and the logarithm that it computes.
pub power_lem : (p : ℕ) → p < 64 → (is_power_of_two (2 ^ p) ≡ true) × (ncb (2 ^ p) ≡ p)
unfolding is_power_of_two ncb
power_lem p h = let (ones, zeros) = ones-and-zeros 64 p h in (rw ones, zeros)
