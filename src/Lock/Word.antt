-- ===== src/Lock/Word.antt =====
-- The word of `RawRwLock`: two flags below a count of readers, which is all ones for a writer.
use dashmap.Base.{ℕ, ◌+◌, ◌-◌, ◌^◌, Option, none, some}
use dashmap.Base.{bit_or, ltb, if◌then◌else◌}

abbrev pub readers_parked : ℕ
readers_parked = 0b0001

abbrev pub writers_parked : ℕ
writers_parked = 0b0010

abbrev pub one_reader : ℕ
one_reader = 0b0100

-- `!(READERS_PARKED | WRITERS_PARKED)`, on 64 bits
abbrev pub one_writer : ℕ
one_writer = 2 ^ 64 - 1 - bit_or readers_parked writers_parked

-- `usize::checked_add(ONE_READER)`
abbrev pub checked_add : ℕ → Option ℕ
checked_add state = if ltb (state + one_reader) (2 ^ 64) then some (state + one_reader) else none
