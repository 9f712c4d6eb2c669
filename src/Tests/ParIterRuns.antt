-- ===== src/Tests/ParIterRuns.antt =====
-- A run of a parallel iterator over a map of two shards, one of which somebody reads.
use dashmap.Base.{ℕ, ◌+◌, ◌*◌, ◌≤◌, ◌≡◌, ◌⊎◌, refl, List, [], ◌∷◌, map, All, length, arith}
use dashmap.Base.Outcome.{done}
use dashmap.Lock.Alone
use dashmap.Lock.Quiet.{IsQuiet}
use dashmap.Map.{DashMap}
use dashmap.Map.State.{IsValid, entries}
use dashmap.Map.Loops.{IsReadable}
use dashmap.Map.Pairs.{Lists}
use dashmap.Rayon.ParIter.{
  Row, Event, start, give, release, finish, closed, par_iter, occur, occur_in,
}
use dashmap.Rayon.Tasks.{drive}
use dashmap.Rayon.ParIter.Seen.{AllClosed, par_iter_sees, par_iter_ends}
use dashmap.Tests.World.{numbers, table, world, world-IsValid}

abbrev Numbers : Type 0
Numbers = DashMap (ℕ × List (ℕ × (ℕ × ℕ))) ℕ

free_word : IsQuiet 0
free_word = record { fits = omega arith; no_flags = refl }

a_reader : IsQuiet 4
a_reader = record { fits = omega arith; no_flags = refl }

abbrev in_use : Numbers
in_use = world 0 4 20 10

in_use_ok : IsValid numbers table in_use
in_use_ok = world-IsValid 0 4 20 10 free_word a_reader

readable : All IsReadable in_use.shards
readable = (
  record { quiet = free_word; room = omega arith },
  (record { quiet = a_reader; room = omega arith }, tt),
)

-- The consumer keeps the reference to 10 until the iterator of its shard is gone.
abbrev events : List (ℕ × Event)
events =
    (1, start)
    ∷ (0, start)
    ∷ (1, give)
    ∷ (0, give)
    ∷ (1, finish)
    ∷ (0, release)
    ∷ (0, finish)
    ∷ (1, release)
    ∷ []

abbrev rows : List (Row (ℕ × List (ℕ × (ℕ × ℕ))) ℕ ℕ)
rows = map (λ s. record { shard = s; task = closed }) in_use.shards

driven : drive (occur_in table) events (par_iter in_use) ≡ done (rows, (1, 10) ∷ (2, 20) ∷ [])
unfolding drive occur Alone.lock_shared Alone.unlock_shared
driven = refl

par_iter_sees_example :
    Lists numbers table in_use ((1, 10) ∷ (2, 20) ∷ []) × (map (λ r. r.shard) rows ≡ in_use.shards)
par_iter_sees_example =
    par_iter_sees numbers table in_use in_use_ok readable events driven (refl, (refl, tt))

par_iter_ends_example :
    (AllClosed rows
      ⊎ ((i : ℕ) × (e : Event) × (rows' : List (Row (ℕ × List (ℕ × (ℕ × ℕ))) ℕ ℕ)) × (more : List
            (ℕ × ℕ))
          × (drive (occur_in table) ((i, e) ∷ []) rows ≡ done (rows', more))))
    × (length events ≤ 2 * entries numbers table in_use + 2 * length in_use.shards)
    × (AllClosed rows → length events ≡ 2 * entries numbers table in_use + 2 * length in_use.shards)
par_iter_ends_example = par_iter_ends numbers table in_use in_use_ok readable events driven
