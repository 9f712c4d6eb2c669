-- ===== src/Lock/System.antt =====
-- Threads on one lock, a step of any of them at a time.
use dashmap.Base.{ℕ, List, [], ◌∷◌, some, get_elem?, set, replicate}
use dashmap.Lock.Thread.{Choice, Pc, idle, advance}

pub record System : Type 0 where
  pub word : ℕ
  pub threads : List Pc

-- Thread `i` takes its next step, if there is such a thread.
unfoldable pub step : ℕ → Choice → System → System
unfolding advance
step i c s = elim (get_elem? s.threads i) [
  | some pc ↦
      let (word, pc') = advance c s.word pc in record { word = word; threads = set s.threads i pc' }
  | _ ↦ s
]

-- `RawRwLock::INIT`, and `n` threads that have not called it
abbrev pub start : ℕ → System
start n = record { word = 0; threads = replicate n idle }

pub data Reach (n : ℕ) : System → Type 0 where
  initial : Reach n (start n)
  later : {s : System} (i : ℕ) (c : Choice) → Reach n s → Reach n (step i c s)

-- A run, from a schedule.
unfoldable pub run : List (ℕ × Choice) → System → System
unfolding step
run [] s = s
run ((i, c) ∷ rest) s = run rest (step i c s)

pub Reach-run :
    {n : ℕ} (schedule : List (ℕ × Choice)) {s : System} → Reach n s → Reach n (run schedule s)
unfolding run
Reach-run [] r = r
Reach-run ((i, c) ∷ rest) r = Reach-run rest (later i c r)
