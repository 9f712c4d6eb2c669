-- ===== src/Lock/Invariant/Defs.antt =====
-- Who holds the lock, what the word then is, and what the locals of a thread say.
use dashmap.Base.{
  ℕ, ◌+◌, ◌*◌, ◌/◌, ◌%◌, ◌^◌, ◌-◌, ◌≤◌, ◌<◌, ◌≡◌, ◌≢◌, ◌⊎◌, length, get_elem?, some, total,
}
use dashmap.Lock.Thread.{
  Pc, reader, writer, ex_outer, ex_loop, fast, try_loop, sh_loop, ux_slow, ux_swap, ux_store,
  dg_wake, failed,
}
use dashmap.Lock.Word.{writers_parked}
use dashmap.Lock.System.{System}

abbrev pub reads : Pc → ℕ
reads reader = 1
reads dg_wake = 1
reads _ = 0

abbrev pub writes : Pc → ℕ
writes writer = 1
writes ux_slow = 1
writes (ux_swap _ _) = 1
writes ux_store = 1
writes _ = 0

-- the upper bits of the word while a writer holds the lock
abbrev pub all_ones : ℕ
all_ones = 2 ^ 62 - 1

-- What the word says of `r` readers and `x` writers: its upper bits count the readers, or are all
-- ones for one writer alone.
abbrev pub Counts : ℕ → ℕ → ℕ → Type 0
Counts x r word = ((x ≡ 0) × (word / 4 ≡ r)) ⊎ ((x ≡ 1) × (r ≡ 0) × (word / 4 ≡ all_ones))

-- A word that may have been read at some time: no more readers than threads, or a writer.
abbrev pub IsPast : ℕ → ℕ → Type 0
IsPast n state = (state < 2 ^ 64) × ((state / 4 ≤ n) ⊎ (state / 4 ≡ all_ones))

abbrev pub IsFlag : ℕ → Type 0
IsFlag aw = (aw ≡ 0) ⊎ (aw ≡ writers_parked)

-- What a thread knows of its locals and of the word.
abbrev pub IsSane : ℕ → ℕ → Pc → Type 0
IsSane n word (ex_outer aw) = IsFlag aw
IsSane n word (ex_loop aw state) = IsFlag aw × IsPast n state
IsSane n word (fast _ state) = IsPast n state
IsSane n word (try_loop state) = IsPast n state
IsSane n word (sh_loop state) = IsPast n state
IsSane n word ux_slow = word % 4 ≢ 0
IsSane n word (ux_swap state parked) =
    (state / 4 ≡ all_ones)
    × (parked ≡ state % 4)
    × ((parked ≡ 1) ⊎ (parked ≡ 2))
    × ((word ≡ state) ⊎ (word % 4 ≡ 3))
IsSane n word failed = ⊥
IsSane n word _ = Unit

-- What the others may do to the word of a writer: set a flag.
abbrev pub Grows : ℕ → ℕ → Type 0
Grows word word' =
    (word' ≡ word) ⊎ ((word' ≡ word / 2 * 2 + 1) ⊎ (word' ≡ word / 4 * 4 + 2 + word % 2))

pub record Inv (n : ℕ) (s : System) : Type 0 where
  pub size : length s.threads ≡ n
  pub few : n < all_ones - 1
  pub fits : s.word < 2 ^ 64
  pub counts : Counts (total writes s.threads) (total reads s.threads) s.word
  pub sane : (i : ℕ) (pc : Pc) → get_elem? s.threads i ≡ some pc → IsSane n s.word pc
