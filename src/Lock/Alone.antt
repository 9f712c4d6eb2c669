-- ===== src/Lock/Alone.antt =====
-- The calls of src/lock.rs as one caller sees them that no other thread disturbs: the steps of
-- `advance`, one after the other. A call that would go to sleep is `blocked`.
use dashmap.Base.{ℕ, zero, suc, false, true, Option, none, some, Bool, if◌then◌else◌}
use dashmap.Base.Outcome.{Outcome, done, blocked, panicked}
use dashmap.Lock.Thread.{
  Call, Choice, Pc, advance, try_lock_exclusive as try_exclusive, lock_exclusive as exclusive,
  try_lock_shared as try_shared, lock_shared as shared,
}

abbrev pub calling : Call → Choice
calling call = record {
  call = call;
  spurious = false;
  spins = false;
  wakes = false;
  downgrades = false;
}

abbrev pub downgrading : Choice
downgrading = record (calling exclusive) { downgrades = true }

-- The caller has returned, or sleeps.
unfoldable pub settled : Pc → Bool
settled Pc.idle = true
settled Pc.reader = true
settled Pc.writer = true
settled Pc.ex_parked = true
settled Pc.sh_parked = true
settled Pc.failed = true
settled _ = false

-- The steps of a call, `n` at most, all with the same choices.
unfoldable pub settle : ℕ → Choice → ℕ × Pc → ℕ × Pc
unfolding advance settled
settle zero c (word, pc) = (word, pc)
settle (suc n) c (word, pc) =
    let rest = settle n c (advance c word pc) in if settled pc then (word, pc) else rest

-- No call makes more than six steps alone.
unfoldable pub finish : Choice → ℕ × Pc → ℕ × Pc
unfolding settle
finish = settle 5

-- Where the caller stands then: it holds the lock, or it waits.
unfoldable pub acquired : ℕ × Pc → Outcome ℕ
acquired (word, Pc.reader) = done word
acquired (word, Pc.writer) = done word
acquired (word, Pc.failed) = panicked
acquired (word, _) = blocked

granted : ℕ × Pc → Option ℕ
granted (word, Pc.reader) = some word
granted (word, Pc.writer) = some word
granted (word, _) = none

unfoldable pub lock_exclusive : ℕ → Outcome ℕ
unfolding finish acquired
lock_exclusive word =
    acquired (finish (calling exclusive) (advance (calling exclusive) word Pc.idle))

unfoldable pub lock_shared : ℕ → Outcome ℕ
unfolding finish acquired
lock_shared word = acquired (finish (calling shared) (advance (calling shared) word Pc.idle))

unfoldable pub try_lock_exclusive : ℕ → Option ℕ
unfolding finish granted
try_lock_exclusive word =
    granted (finish (calling try_exclusive) (advance (calling try_exclusive) word Pc.idle))

unfoldable pub try_lock_shared : ℕ → Option ℕ
unfolding finish granted
try_lock_shared word =
    granted (finish (calling try_shared) (advance (calling try_shared) word Pc.idle))

unfoldable pub unlock_exclusive : ℕ → ℕ
unfolding finish
unlock_exclusive word = (finish (calling exclusive) (advance (calling exclusive) word Pc.writer)).0

unfoldable pub unlock_shared : ℕ → ℕ
unfolding finish
unlock_shared word = (finish (calling shared) (advance (calling shared) word Pc.reader)).0

unfoldable pub downgrade : ℕ → ℕ
unfolding finish
downgrade word = (finish downgrading (advance downgrading word Pc.writer)).0
