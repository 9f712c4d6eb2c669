-- ===== src/Rayon/ParIterMut.antt =====
-- src/rayon/map.rs: `par_iter_mut`, the parallel iterator that lends entries for writes, with
-- `for_each` of rayon as its consumer: the closure changes the value behind each reference, which is
-- then dropped.
pub mod Changed
pub mod Runs
use dashmap.Base.{ℕ, zero, suc, Option, none, some, List, [], ◌∷◌, map, get_elem?}
use dashmap.Base.Outcome.{Outcome, done, blocked, ◌>>=◌}
use dashmap.Lock.Alone
use dashmap.Table.{HashTable}
use dashmap.Map.{RwLock, DashMap}

-- A task: to come; with the lock, at the next entry; and done.
pub data Task : Type 0 where
  unstarted : Task
  changing : ℕ → Task
  closed : Task

pub record Row {ℓ} (T : Type ℓ) : Type ℓ where
  pub shard : RwLock T
  pub task : Task

pub data Event : Type 0 where
  start give finish : Event

-- `par_iter_mut`
abbrev pub par_iter_mut {ℓ} : {T S : Type ℓ} → DashMap T S → List (Row T)
par_iter_mut m = map (λ s. record { shard = s; task = unstarted }) m.shards

module _ {ℓ} {K V : Type ℓ} (H : HashTable (K × V)) (f : K → V → V) where
  open H use {T, slots}

  -- the item under the iterator, changed by the closure
  unfoldable pub give_item : RwLock T → ℕ → Option (ℕ × (K × V)) → Outcome (Row T × List (K × V))
  give_item s p none = blocked
  give_item s p (some (_, (k, v))) = done (
    record {
      shard = record s { data_ptr = H.write s.data_ptr p (k, f k v) };
      task = changing (suc p);
    },
    (k, v) ∷ [],
  )

  -- The end of the iterator, where there is no item: the guard goes.
  unfoldable pub finish_at : RwLock T → Option (ℕ × (K × V)) → Outcome (Row T × List (K × V))
  finish_at s none =
      done (record { shard = record s { raw = Alone.unlock_exclusive s.raw }; task = closed }, [])
  finish_at s (some _) = blocked

  unfoldable pub occur : Event → RwLock T → Task → Outcome (Row T × List (K × V))
  unfolding give_item finish_at
  occur start s unstarted = do
    raw ← Alone.lock_exclusive s.raw
    done (record { shard = record s { raw = raw }; task = changing 0 }, [])
  occur give s (changing p) = give_item s p (get_elem? (slots s.data_ptr) p)
  occur finish s (changing p) = finish_at s (get_elem? (slots s.data_ptr) p)
  occur _ s _ = blocked

  abbrev pub occur_in : Event → Row T → Outcome (Row T × List (K × V))
  occur_in e r = occur e r.shard r.task
