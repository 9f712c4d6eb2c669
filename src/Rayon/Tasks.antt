-- ===== src/Rayon/Tasks.antt =====
-- src/rayon/map.rs: `into_par_iter().flat_map_iter(closure).drive_unindexed(consumer)` on the shards.
-- The closure is called once for each shard, on any thread, and the iterator that it returns is gone
-- through one item after another; the calls for different shards are tasks that interleave.
pub mod Driven
use dashmap.Base.{ℕ, none, some, List, [], ◌∷◌, ◌++◌, get_elem?, set}
use dashmap.Base.Outcome.{Outcome, done, blocked, ◌>>=◌}

-- `occur` is what an event makes of a shard with its task, and the items that it gives to the
-- consumer. An event that is not possible now does not happen.
module _ {ℓ} {R I : Type ℓ} {E : Type 0} (occur : E → R → Outcome (R × List I)) where
  -- A sequence of events, each with the number of its shard, and the items in the order in which
  -- they are given.
  unfoldable pub drive : List (ℕ × E) → List R → Outcome (List R × List I)
  drive [] rows = done (rows, [])
  drive ((i, e) ∷ events) rows = elim (get_elem? rows i) [
    | none ↦ blocked
    | some r ↦ do
      (r', items) ← occur e r
      (rows', rest) ← drive events (set rows i r')
      done (rows', items ++ rest)
  ]
