-- ===== src/Lock/Thread.antt =====
-- A thread that uses the lock: where it stands in src/lock.rs, and its next step. A step makes one
-- access to the word at most. The parking lot is no part of this: a thread that it put to sleep
-- may wake at any step, so whatever wakes it is allowed.
use dashmap.Base.{ℕ, ◌+◌, ◌-◌, ◌%◌, ◌^◌, Bool, not, ◌&&◌, none, some}
use dashmap.Base.{bit_and, bit_or, ◌==◌, if◌then◌else◌}
use dashmap.Lock.Word.{readers_parked, writers_parked, one_reader, one_writer, checked_add}

-- What an idle thread calls.
pub data Call : Type 0 where
  try_lock_exclusive lock_exclusive try_lock_shared lock_shared : Call

-- Which of the two callers of `try_lock_shared_fast` runs it.
pub data Caller : Type 0 where
  trying locking : Caller

-- What is not decided by the word: the call, whether a weak exchange fails for no reason, whether
-- `SpinWait::spin` says to go on, whether a sleeper wakes, and whether a writer downgrades.
pub record Choice : Type 0 where
  pub call : Call
  pub spurious : Bool
  pub spins : Bool
  pub wakes : Bool
  pub downgrades : Bool

pub data Pc : Type 0 where
  idle : Pc
  reader : Pc  -- holds the lock shared
  writer : Pc  -- holds the lock exclusively
  ex_outer : (acquire_with : ℕ) → Pc  -- lock_exclusive_slow: head of the outer loop
  ex_loop : (acquire_with state : ℕ) → Pc  -- its inner loop
  ex_park : Pc  -- before `park`
  ex_parked : Pc
  fast : Caller → (state : ℕ) → Pc  -- try_lock_shared_fast, after its load
  try_slow : Pc  -- try_lock_shared_slow, before its load
  try_loop : (state : ℕ) → Pc
  sh_outer : Pc  -- lock_shared_slow: head of the outer loop
  sh_loop : (state : ℕ) → Pc  -- its inner loop
  sh_reload : Pc  -- after a failed exchange
  sh_park : Pc
  sh_parked : Pc
  ux_slow : Pc  -- unlock_exclusive_slow
  ux_swap : (state parked : ℕ) → Pc  -- before its exchange
  ux_store : Pc  -- before its store
  wake_readers : Pc  -- before `unpark_all`, unlocked
  wake_writer : Pc  -- before `unpark_one`, unlocked
  dg_wake : Pc  -- downgrade, before `unpark_all`
  us_slow : Pc  -- unlock_shared_slow
  failed : Pc  -- an assertion failed

-- A call of a thread that holds nothing.
unfoldable pub begin : Call → Choice → ℕ → ℕ × Pc
begin try_lock_exclusive c word = if word == 0 then (one_writer, writer) else (word, idle)
begin lock_exclusive c word =
    if word == 0 && not c.spurious then (one_writer, writer) else (word, ex_outer 0)
begin try_lock_shared c word = (word, fast trying word)
begin lock_shared c word = (word, fast locking word)

-- `compare_exchange_weak(state, new_state)`: go on at `won`, or at `lost` with the word as it is.
unfoldable pub exchange_weak : Choice → ℕ → ℕ → ℕ → Pc → Pc → ℕ × Pc
exchange_weak c word state new_state won lost =
    if word == state && not c.spurious then (new_state, won) else (word, lost)

-- `lock_exclusive_slow`, from the top of its inner loop
unfoldable pub exclusive_loop : Choice → ℕ → ℕ → ℕ → ℕ × Pc
unfolding exchange_weak
exclusive_loop c word acquire_with state =
    if bit_and state one_writer == 0
    then exchange_weak c word state (bit_or (bit_or state one_writer) acquire_with) writer
        (ex_loop acquire_with word)
    else if bit_and state writers_parked == 0
    then if c.spins
      then (word, ex_loop acquire_with word)
      else exchange_weak c word state (bit_or state writers_parked) ex_park
          (ex_loop acquire_with word)
    else (word, ex_park)

unfoldable pub after_fast : Caller → Pc
after_fast trying = try_slow
after_fast locking = sh_outer

-- `try_lock_shared_fast`
unfoldable pub shared_fast : Choice → ℕ → Caller → ℕ → ℕ × Pc
unfolding exchange_weak after_fast
shared_fast c word caller state = elim (checked_add state) [
  | none ↦ (word, after_fast caller)
  | some new_state ↦
      if bit_and new_state one_writer == one_writer
      then (word, after_fast caller)
      else exchange_weak c word state new_state reader (after_fast caller)
]

-- `try_lock_shared_slow`, a round of its loop
unfoldable pub try_shared_loop : Choice → ℕ → ℕ → ℕ × Pc
unfolding exchange_weak
try_shared_loop c word state = elim (checked_add state) [
  | none ↦ (word, idle)
  | some new_state ↦
      if bit_and new_state one_writer == one_writer
      then (word, idle)
      else exchange_weak c word state new_state reader (try_loop word)
]

-- `lock_shared_slow`, from the top of its inner loop
unfoldable pub shared_loop : Choice → ℕ → ℕ → ℕ × Pc
unfolding exchange_weak
shared_loop c word state = elim (checked_add state) [
  | some new_state ↦
      if bit_and new_state one_writer == one_writer
      then (word, failed)
      else exchange_weak c word state new_state reader sh_reload
  | none ↦
      if bit_and state readers_parked == 0
      then if c.spins
        then (word, sh_loop word)
        else exchange_weak c word state (bit_or state readers_parked) sh_park (sh_loop word)
      else (word, sh_park)
]

-- `unlock_exclusive_slow`, up to its exchange
unfoldable pub unlock_slow : ℕ → ℕ × Pc
unlock_slow word =
    let parked = bit_and word (bit_or readers_parked writers_parked) in
    if bit_and word one_writer == one_writer && not (parked == 0)
    then if parked == bit_or readers_parked writers_parked
      then (word, ux_store)
      else (word, ux_swap word parked)
    else (word, failed)

-- The end of `unlock_exclusive_slow`, by what was parked.
unfoldable pub wake : ℕ → Pc
wake parked =
    if parked == readers_parked
    then wake_readers
    else if parked == writers_parked
    then wake_writer
    else failed

-- its exchange, which fails only if the other flag was set too
unfoldable pub unlock_swap : ℕ → ℕ → ℕ → ℕ × Pc
unfolding wake
unlock_swap word state parked =
    if word == state
    then (0, wake parked)
    else if word == bit_or (bit_or one_writer readers_parked) writers_parked
    then (word, ux_store)
    else (word, failed)

-- `unlock_exclusive`, or `downgrade`, by the thread that holds the lock
unfoldable pub leave_writer : Choice → ℕ → ℕ × Pc
leave_writer c word =
    if c.downgrades
    then (
      bit_and word (bit_or one_reader writers_parked),
      if bit_and word readers_parked == 0 then reader else dg_wake,
    )
    else if word == one_writer
    then (0, idle)
    else (word, ux_slow)

-- `unlock_shared`: `fetch_sub` wraps
unfoldable pub leave_reader : ℕ → ℕ × Pc
leave_reader word = (
  (word + 2 ^ 64 - one_reader) % 2 ^ 64,
  if word == bit_or one_reader writers_parked then us_slow else idle,
)

-- the `validate` closures that `park` runs
unfoldable pub exclusive_validate : ℕ → Bool
exclusive_validate word =
    not (bit_and word one_writer == 0) && not (bit_and word writers_parked == 0)

unfoldable pub shared_validate : ℕ → Bool
shared_validate word =
    bit_and word one_writer == one_writer && not (bit_and word readers_parked == 0)

-- One step of a thread: the word and the place after it.
unfoldable pub advance : Choice → ℕ → Pc → ℕ × Pc
unfolding begin exclusive_loop shared_fast try_shared_loop shared_loop unlock_slow unlock_swap
    leave_writer leave_reader exclusive_validate shared_validate
advance c word idle = begin c.call c word
advance c word reader = leave_reader word
advance c word writer = leave_writer c word
advance c word (ex_outer acquire_with) = (word, ex_loop acquire_with word)
advance c word (ex_loop acquire_with state) = exclusive_loop c word acquire_with state
advance c word ex_park =
    (word, if exclusive_validate word then ex_parked else ex_outer writers_parked)
advance c word ex_parked = (word, if c.wakes then ex_outer writers_parked else ex_parked)
advance c word (fast caller state) = shared_fast c word caller state
advance c word try_slow = (word, try_loop word)
advance c word (try_loop state) = try_shared_loop c word state
advance c word sh_outer = (word, sh_loop word)
advance c word (sh_loop state) = shared_loop c word state
advance c word sh_reload = (word, sh_loop word)
advance c word sh_park = (word, if shared_validate word then sh_parked else sh_outer)
advance c word sh_parked = (word, if c.wakes then sh_outer else sh_parked)
advance c word ux_slow = unlock_slow word
advance c word (ux_swap state parked) = unlock_swap word state parked
advance c word ux_store = (writers_parked, wake_readers)
advance c word wake_readers = (word, idle)
advance c word wake_writer = (word, idle)
advance c word dg_wake = (word, reader)
advance c word us_slow = if word == writers_parked then (0, wake_writer) else (word, idle)
advance c word failed = (word, failed)
