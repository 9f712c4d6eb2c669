-- ===== src/Tests/RayonRuns.antt =====
-- Runs of `par_extend` with two workers.
use dashmap.Base.{ℕ, ◌*◌, ◌≤◌, ◌≡◌, ◌⊎◌, ◌↔◌, refl, List, [], ◌∷◌, Permᴰ, length, arith}
use dashmap.Base.Outcome.{done}
use dashmap.Lock.Quiet.{IsQuiet}
use dashmap.Lock.Alone
use dashmap.Shards
use dashmap.Map
use dashmap.Map.Entry
use dashmap.Map.{DashMap}
use dashmap.Map.State.{IsValid}
use dashmap.Map.Making.{extend}
use dashmap.Map.Entry.{occupied, vacant}
use dashmap.Map.Pairs.{count_pairs}
use dashmap.Map.Distinct.{AreDistinct}
use dashmap.Rayon.{
  waiting, inside, finished, ParExtend, par_extend, advance, Step, turn, Reach, here, next, steps,
}
use dashmap.Rayon.Runs.{AreFinished, par_extend_ends, par_extend_atomic}
use dashmap.Tests.World.{numbers, table, hash_of, world, world-IsValid}

abbrev Numbers : Type 0
Numbers = DashMap (ℕ × List (ℕ × (ℕ × ℕ))) ℕ

free_word : IsQuiet 0
free_word = record { fits = omega arith; no_flags = refl }

-- 20 under 2 and 10 under 1
abbrev m : Numbers
m = world 0 0 20 10

ok : IsValid numbers table m
ok = world-IsValid 0 0 20 10 free_word free_word

-- a new key, and one that is there, in two shards
abbrev items : List (ℕ × ℕ)
items = (4, 40) ∷ (1, 11) ∷ []

abbrev State : Type 0
State = ParExtend (ℕ × List (ℕ × (ℕ × ℕ))) ℕ ℕ ℕ

-- the shards with 40 under 4 and 11 under 1
abbrev extended : Numbers
extended = record {
  shift = 63;
  shards =
      record { raw = 0; data_ptr = (8, (hash_of 1 4, (4, 40)) ∷ (hash_of 1 2, (2, 20)) ∷ []) }
      ∷ record { raw = 0; data_ptr = (8, (hash_of 1 1, (1, 11)) ∷ []) }
      ∷ [];
  hasher = 1;
}

abbrev over : State
over = record { map = extended; workers = finished ∷ finished ∷ [] }

-- Both take their locks, and the second lets go first.
crossing : Reach numbers table (par_extend m items) over
unfolding advance Map.determine_shard Shards.determine_shard Alone.lock_exclusive Entry.table_entry
    Alone.unlock_exclusive
crossing =
    next
      (next
        (next (next here (turn 1 {w = waiting 1 11} refl refl))
          (turn 0 {w = waiting 4 40} refl refl))
        (turn 1 {w = inside (occupied (record { shard = 1; pos = 0; entry = (1, 10); key = 1 })) 11}
          refl refl))
      (turn 0 {w = inside (vacant (record { shard = 0; key = 4; hash = hash_of 1 4 })) 40} refl
        refl)

all_finished : AreFinished over.workers
all_finished = (refl, (refl, tt))

one_key_each : AreDistinct numbers items
unfolding count_pairs
one_key_each q = ground arith

par_extend_ends_example :
    (AreFinished over.workers ⊎ ((q : State) × Step numbers table over q))
    × (steps numbers table crossing ≤ 2 * length items)
    × (AreFinished over.workers ↔ (steps numbers table crossing ≡ 2 * length items))
par_extend_ends_example = par_extend_ends numbers table m items ok (refl, (refl, tt)) crossing

par_extend_atomic_example :
    (order : List (ℕ × ℕ)) × Permᴰ order items × (extend numbers table m order ≡ done extended)
par_extend_atomic_example =
    par_extend_atomic numbers table m items ok (refl, (refl, tt)) crossing all_finished
