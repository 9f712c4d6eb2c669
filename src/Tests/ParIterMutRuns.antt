-- ===== src/Tests/ParIterMutRuns.antt =====
-- A run of a parallel iterator for writes over a map of two shards.
use dashmap.Base.{ℕ, ◌+◌, ◌≡◌, refl, List, [], ◌∷◌, map, arith}
use dashmap.Base.Outcome.{done}
use dashmap.Lock.Alone
use dashmap.Lock.Quiet.{IsQuiet}
use dashmap.Map.{DashMap}
use dashmap.Map.State.{IsValid}
use dashmap.Map.IterMut.{alter_all}
use dashmap.Map.Pairs.{Lists}
use dashmap.Rayon.Tasks.{drive}
use dashmap.Rayon.ParIterMut.{
  Row, Event, start, give, finish, closed, par_iter_mut, occur, occur_in, give_item, finish_at,
}
use dashmap.Rayon.ParIterMut.Runs.{left_map, par_iter_mut_lem}
use dashmap.Tests.World.{numbers, table, world, world-IsValid}

abbrev Table : Type 0
Table = ℕ × List (ℕ × (ℕ × ℕ))

free_word : IsQuiet 0
free_word = record { fits = omega arith; no_flags = refl }

abbrev unused : DashMap Table ℕ
unused = world 0 0 20 10

unused_ok : IsValid numbers table unused
unused_ok = world-IsValid 0 0 20 10 free_word free_word

abbrev raise : ℕ → ℕ → ℕ
raise k v = v + k

-- Both shards are locked at once, and the second is done first.
abbrev events : List (ℕ × Event)
events = (0, start) ∷ (1, start) ∷ (1, give) ∷ (1, finish) ∷ (0, give) ∷ (0, finish) ∷ []

abbrev rows : List (Row Table)
rows = map (λ s. record { shard = s; task = closed }) (world 0 0 22 11).shards

abbrev items : List (ℕ × ℕ)
items = (1, 10) ∷ (2, 20) ∷ []

driven : drive (occur_in table raise) events (par_iter_mut unused) ≡ done (rows, items)
unfolding drive occur give_item finish_at Alone.lock_exclusive Alone.unlock_exclusive
driven = refl

par_iter_mut_lem_example :
    (alter_all table unused raise ≡ done (left_map unused rows)) × Lists numbers table unused items
par_iter_mut_lem_example =
    par_iter_mut_lem numbers table unused unused_ok (refl, (refl, tt)) raise events driven
      (refl, (refl, tt))
