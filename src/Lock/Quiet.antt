-- ===== src/Lock/Quiet.antt =====
-- The calls of `Alone` on a word with no flag set: nobody sleeps on the lock.
use dashmap.Base.{ℕ, ◌+◌, ◌%◌, ◌^◌, ◌<◌, ◌≡◌, refl, arith, none, some, if◌then◌else◌, ◌==◌, ltb}
use dashmap.Base.Bits.{and_high_mask, and_two, and_one, or_one, or_two}
use dashmap.Base.Outcome.{done, blocked, panicked}
use dashmap.Lock.Word.{one_writer}
use dashmap.Lock.Alone.{
  lock_exclusive, lock_shared, try_lock_exclusive, try_lock_shared, unlock_exclusive, unlock_shared,
  downgrade,
}

pub record IsQuiet (word : ℕ) : Type 0 where
  pub fits : word < 2 ^ 64
  pub no_flags : word % 4 ≡ 0

module _ (word : ℕ) (quiet : IsQuiet word) where
  pub lock_exclusive_lem : lock_exclusive word ≡ (if word == 0 then done one_writer else blocked)
  unfolding lock_exclusive
  lock_exclusive_lem = ground (
    arith,
    and_high_mask word quiet.fits,
    and_two word,
    or_two word,
    and_two (word + 2),
    and_high_mask (word + 2) (omega arith),
  )

  -- One reader too many would read as a writer, which the code asserts against.
  pub lock_shared_lem : lock_shared word ≡ (
      if ltb (word + 8) (2 ^ 64)
      then done (word + 4)
      else if ltb (word + 4) (2 ^ 64)
      then panicked
      else blocked)
  unfolding lock_shared
  lock_shared_lem = ground (
    arith,
    and_high_mask word quiet.fits,
    and_one word,
    or_one word,
    and_one (word + 1),
    and_high_mask (word + 1) (omega arith),
    and_high_mask (word + 4),
  )

  pub try_lock_exclusive_lem :
      try_lock_exclusive word ≡ (if word == 0 then some one_writer else none)
  unfolding try_lock_exclusive
  try_lock_exclusive_lem = ground arith

  pub try_lock_shared_lem :
      try_lock_shared word ≡ (if ltb (word + 8) (2 ^ 64) then some (word + 4) else none)
  unfolding try_lock_shared
  try_lock_shared_lem = ground (arith, and_high_mask (word + 4))

  pub unlock_shared_lem : word + 4 < 2 ^ 64 → unlock_shared (word + 4) ≡ word
  unfolding unlock_shared
  unlock_shared_lem h = ground arith

pub unlock_exclusive_lem : unlock_exclusive one_writer ≡ 0
unfolding unlock_exclusive
unlock_exclusive_lem = refl

pub downgrade_lem : downgrade one_writer ≡ 4
unfolding downgrade
downgrade_lem = refl
