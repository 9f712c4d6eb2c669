-- ===== src/Tests/LockRuns.antt =====
-- Runs of two threads on one lock.
use dashmap.Base.{
  ℕ, ◌/◌, ◌≡◌, ◌≢◌, ◌⊎◌, refl, List, [], ◌∷◌, ◌++◌, true, false, some, get_elem?, total, arith,
}
use dashmap.Lock.Thread.{Choice, Call, Pc, advance}
use dashmap.Lock.System.{initial, start, run, Reach-run}
use dashmap.Lock.Invariant.{reads, writes, all_ones}
use dashmap.Lock.Simulation.{Undisturbed, undisturbed_lem}
use dashmap.Lock.Safety.{mutual_exclusion, never_fails, word_counts, exclusive_alone}

abbrev calls : Call → Choice
calls call = record {
  call = call;
  spurious = false;
  spins = false;
  wakes = false;
  downgrades = false;
}

-- Thread 0 takes the lock exclusively, and thread 1 waits for it until it sleeps.
abbrev waiting : List (ℕ × Choice)
waiting =
    (0, calls Call.lock_exclusive)
    ∷ (1, calls Call.lock_exclusive)
    ∷ (1, calls Call.lock_exclusive)
    ∷ (1, calls Call.lock_exclusive)
    ∷ (1, calls Call.lock_exclusive)
    ∷ []

-- Then thread 0 unlocks, up to the wake-up, and thread 1 is back at the head of its loop.
abbrev woken : List (ℕ × Choice)
woken =
    waiting
    ++ ((0, calls Call.lock_exclusive)
        ∷ (0, calls Call.lock_exclusive)
        ∷ (0, calls Call.lock_exclusive)
        ∷ (1, record (calls Call.lock_exclusive) { wakes = true })
        ∷ [])

-- Thread 0 takes the lock shared.
abbrev shared_once : List (ℕ × Choice)
shared_once = (0, calls Call.lock_shared) ∷ (0, calls Call.lock_shared) ∷ []

waiting_threads : (run waiting (start 2)).threads ≡ Pc.writer ∷ Pc.ex_parked ∷ []
unfolding run
waiting_threads = refl

woken_state :
    run woken (start 2) ≡ record { word = 0; threads = Pc.wake_writer ∷ Pc.ex_outer 2 ∷ [] }
unfolding run
woken_state = refl

mutual_exclusion_example : (writes Pc.ex_parked ≡ 0) × (reads Pc.ex_parked ≡ 0)
unfolding run
mutual_exclusion_example =
    mutual_exclusion {n = 2} {s = run waiting (start 2)} (omega arith) (Reach-run waiting initial) 0
      1 {p = Pc.writer} {q = Pc.ex_parked} (omega arith) refl refl refl

never_fails_example : get_elem? (run woken (start 2)).threads 0 ≢ some Pc.failed
never_fails_example =
    never_fails {n = 2} {s = run woken (start 2)} (omega arith) (Reach-run woken initial) 0

word_counts_example :
    ((total writes (run shared_once (start 2)).threads ≡ 0)
      × ((run shared_once (start 2)).word / 4 ≡ total reads (run shared_once (start 2)).threads))
    ⊎ ((total writes (run shared_once (start 2)).threads ≡ 1)
        × (total reads (run shared_once (start 2)).threads ≡ 0)
        × ((run shared_once (start 2)).word / 4 ≡ all_ones))
word_counts_example =
    word_counts {n = 2} {s = run shared_once (start 2)} (omega arith)
      (Reach-run shared_once initial)

exclusive_alone_example :
    (let (word, pc) =
        advance (calls Call.lock_exclusive) (run woken (start 2)).word (Pc.ex_outer 2) in
      advance (calls Call.lock_exclusive) word pc).1
    ≡ Pc.writer
unfolding run total
exclusive_alone_example =
    exclusive_alone {n = 2} {s = run woken (start 2)} (calls Call.lock_exclusive)
      (calls Call.lock_exclusive) 2 (omega arith) (Reach-run woken initial) refl refl refl

-- Thread 1 is idle while thread 0 reads.
undisturbed_lem_example : Undisturbed 2 (run shared_once (start 2)) 1
unfolding run
undisturbed_lem_example =
    undisturbed_lem {n = 2} {s = run shared_once (start 2)} 1 (omega arith)
      (Reach-run shared_once initial) refl refl
