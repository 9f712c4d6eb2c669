-- ===== src/Tests/ConcurrentRuns.antt =====
-- A run of three threads on a map of two shards.
use dashmap.Base.{
  ℕ, ◌*◌, ◌≤◌, ◌≡◌, ◌≢◌, ◌⊎◌, refl, some, none, List, [], ◌∷◌, All, get_elem?, map, length, total,
  arith,
}
use dashmap.Base.Outcome.{done, panicked}
use dashmap.Lock.Quiet.{IsQuiet}
use dashmap.Lock.Alone
use dashmap.Shards
use dashmap.Map
use dashmap.Map.Entry
use dashmap.Map.{DashMap}
use dashmap.Map.State.{IsValid, contents}
use dashmap.Concurrent.{
  Call, get, insert, remove, pair, value, Thread, outside, Threads, enter, finish, leave, critical,
  on_entry, advance, step, run, one_by_one, start,
}
use dashmap.Concurrent.Seen.{seen_thread, seen}
use dashmap.Concurrent.Abstract.{by_spec}
use dashmap.Concurrent.Abstract.Refines.{threads_refine}
use dashmap.Concurrent.Runs.{IsDone, effects, linearizable}
use dashmap.Concurrent.Ends.{CanStep, concurrent_ends}
use dashmap.Tests.World.{numbers, table, hash_of, world, world-IsValid}

abbrev Table : Type 0
Table = ℕ × List (ℕ × (ℕ × ℕ))

free_word : IsQuiet 0
free_word = record { fits = omega arith; no_flags = refl }

-- 20 under 2 and 10 under 1
abbrev m : DashMap Table ℕ
m = world 0 0 20 10

ok : IsValid numbers table m
ok = world-IsValid 0 0 20 10 free_word free_word

abbrev programs : List (List (Call ℕ ℕ))
programs = (get 2 ∷ remove 1 ∷ []) ∷ (insert 4 40 ∷ []) ∷ (get 2 ∷ []) ∷ []

-- Two readers of one shard at once, and then writers of both shards.
abbrev turns : List ℕ
turns = 0 ∷ 2 ∷ 2 ∷ 0 ∷ 0 ∷ 2 ∷ 1 ∷ 0 ∷ 0 ∷ 1 ∷ 1 ∷ 0 ∷ []

abbrev over : Threads Table ℕ ℕ ℕ
over = record {
  map = record {
    shift = 63;
    shards =
        record { raw = 0; data_ptr = (8, (hash_of 1 4, (4, 40)) ∷ (hash_of 1 2, (2, 20)) ∷ []) }
        ∷ record { raw = 0; data_ptr = (8, []) }
        ∷ [];
    hasher = 1;
  };
  threads =
      outside [] (pair (some (1, 10)) ∷ pair (some (2, 20)) ∷ [])
      ∷ outside [] (value none ∷ [])
      ∷ outside [] (pair (some (2, 20)) ∷ [])
      ∷ [];
}

ran : run numbers table turns (start m programs) ≡ done over
unfolding run step advance enter finish leave critical on_entry Map.determine_shard
    Shards.determine_shard Alone.lock_exclusive Alone.lock_shared Alone.unlock_exclusive
    Alone.unlock_shared Entry.table_entry
ran = refl

happened : effects numbers table turns (start m programs) ≡ 2 ∷ 0 ∷ 0 ∷ 1 ∷ []
unfolding effects advance enter finish leave critical on_entry Map.determine_shard
    Shards.determine_shard Alone.lock_exclusive Alone.lock_shared Alone.unlock_exclusive
    Alone.unlock_shared Entry.table_entry
happened = refl

linearizable_example :
    (one_by_one numbers table (effects numbers table turns (start m programs)) (start m programs)
      ≡ done (seen over))
    × (All IsDone over.threads
        → one_by_one numbers table
            (effects numbers table turns (start m programs))
            (start m programs)
          ≡ done over)
linearizable_example = linearizable numbers table m ok (refl, (refl, tt)) programs turns ran

concurrent_ends_example :
    (All IsDone over.threads ⊎ CanStep numbers table over)
    × ((j : ℕ) (w : Thread Table ℕ ℕ)
        → get_elem? over.threads j ≡ some w
        → advance numbers table w over.map ≢ panicked)
    × (length turns ≤ 3 * total length programs)
    × (All IsDone over.threads → length turns ≡ 3 * total length programs)
concurrent_ends_example =
    concurrent_ends numbers table m ok (refl, (refl, tt)) programs turns (omega arith) ran

threads_refine_example :
    by_spec numbers
      (effects numbers table turns (start m programs))
      (contents numbers table m)
      (start m programs).threads
    ≡ some (contents numbers table over.map, map seen_thread over.threads)
threads_refine_example = threads_refine numbers table m ok (refl, (refl, tt)) programs turns ran
