-- ===== src/Shards.antt =====
-- The arithmetic of src/lib.rs: how many shards a map has, which of them a hash belongs to, and how
-- much room each is given. A `usize` has 64 bits. Where a debug build panics and a release build
-- does not, at an overflow or at `unreachable!`, the model has `panicked`.
pub mod Bounds
use dashmap.Base.{
  ℕ, zero, suc, ◌+◌, ◌-◌, ◌*◌, ◌/◌, ◌%◌, ◌^◌, Bool, true, false, not, ◌&&◌, Option, none, some,
  bit_and, ltb, ◌==◌, if◌then◌else◌,
}
use dashmap.Base.Outcome.{Outcome, done, panicked, ◌>>=◌}

abbrev pub size_of_usize : ℕ
size_of_usize = 8

-- src/util.rs
abbrev pub ptr_size_bits : ℕ
ptr_size_bits = size_of_usize * 8

-- `usize::trailing_zeros` and `usize::count_ones`, of the `bits` lowest digits
trailing_zeros : ℕ → ℕ → ℕ
trailing_zeros zero n = 0
trailing_zeros (suc bits) n = if n % 2 == 0 then suc (trailing_zeros bits (n / 2)) else 0

count_ones : ℕ → ℕ → ℕ
count_ones zero n = 0
count_ones (suc bits) n = n % 2 + count_ones bits (n / 2)

unfoldable pub is_power_of_two : ℕ → Bool
unfolding count_ones
is_power_of_two n = count_ones ptr_size_bits n == 1

unfoldable pub ncb : ℕ → ℕ
unfolding trailing_zeros
ncb shard_amount = trailing_zeros ptr_size_bits shard_amount

-- `usize::next_power_of_two`: the first of `p, 2 * p, 4 * p, …` that is not below `n`
next_power_from : ℕ → ℕ → ℕ → Outcome ℕ
next_power_from zero p n = panicked
next_power_from (suc bits) p n =
    let rest = next_power_from bits (2 * p) n in if ltb p n then rest else done p

unfoldable pub next_power_of_two : ℕ → Outcome ℕ
unfolding next_power_from
next_power_of_two n = next_power_from ptr_size_bits 1 n

-- `parallelism` is what `available_parallelism` returned, if it did not fail. The static cell only
-- keeps the result.
unfoldable pub default_shard_amount : Option ℕ → Outcome ℕ
unfolding next_power_of_two
default_shard_amount none = next_power_of_two (1 * 4)
default_shard_amount (some parallelism) =
    if ltb (parallelism * 4) (2 ^ 64) then next_power_of_two (parallelism * 4) else panicked

-- `!mask`, on 64 bits
abbrev complement : ℕ → ℕ
complement mask = 2 ^ 64 - 1 - mask

-- The capacity of each shard: the whole is rounded up to a multiple of the number of shards.
unfoldable pub shard_capacity : ℕ → ℕ → Outcome ℕ
shard_capacity capacity shard_amount =
    if capacity == 0
    then done 0
    else if ltb (capacity + (shard_amount - 1)) (2 ^ 64)
    then done
        (bit_and (capacity + (shard_amount - 1)) (complement (shard_amount - 1)) / shard_amount)
    else panicked

-- `(hash << 7) >> shift`, for a shift below the width
abbrev pub shard_index : ℕ → ℕ → ℕ
shard_index shift hash = hash * 2 ^ 7 % 2 ^ 64 / 2 ^ shift

-- The index, against the number of shards. A shift by the width or more is an overflow.
unfoldable pub determine_shard : ℕ → ℕ → ℕ → Outcome ℕ
determine_shard shift shard_amount hash =
    let idx = shard_index shift hash in
    if ltb shift ptr_size_bits
    then if ltb idx shard_amount then done idx else panicked
    else panicked
