-- ===== src/Rayon/ParIter.antt =====
-- src/rayon/map.rs: `par_iter`, the parallel iterator over `&map`. A reference has a share of the
-- guard of its shard, which is dropped with the last share.
pub mod Rows
pub mod Seen
use dashmap.Base.{ℕ, zero, suc, Option, none, some, List, [], ◌∷◌, ◌++◌, map, get_elem?, set}
use dashmap.Base.Outcome.{Outcome, done, blocked, ◌>>=◌}
use dashmap.Lock.Alone
use dashmap.Table.{HashTable}
use dashmap.Map.{RwLock, DashMap}
use dashmap.Map.Iter.{pairs}
use dashmap.ReadOnly.{ReadOnlyView}
use dashmap.DashSet.{DashSet}

-- The call of the closure for a shard: to come; with so many references and the items that are left
-- while its iterator is there; with so many references when the iterator is gone; and done.
pub data Task {ℓ} (K V : Type ℓ) : Type ℓ where
  unstarted : Task K V
  running : ℕ → List (K × V) → Task K V
  ended : ℕ → Task K V
  closed : Task K V

pub record Row {ℓ} (T K V : Type ℓ) : Type ℓ where
  pub shard : RwLock T
  pub task : Task K V

-- What can happen to a task: the closure is called, the iterator gives an item, a reference is
-- dropped, the iterator is dropped at its end.
pub data Event : Type 0 where
  start give release finish : Event

module _ {ℓ} {K V : Type ℓ} where
  -- `into_par_iter`
  abbrev pub par_iter : {T S : Type ℓ} → DashMap T S → List (Row T K V)
  par_iter m = map (λ s. record { shard = s; task = unstarted }) m.shards

  -- `into_par_iter` of `&view`, which takes the locks of the map
  abbrev pub par_iter_view : {T S : Type ℓ} → ReadOnlyView T S → List (Row T K V)
  par_iter_view view = par_iter view.map

  -- the last share of the guard goes
  unfoldable pub let_go : {T : Type ℓ} → RwLock T → Row T K V
  let_go s = record { shard = record s { raw = Alone.unlock_shared s.raw }; task = closed }

-- `into_par_iter` of `&set`
abbrev pub par_iter_set {ℓ} : {K T S : Type ℓ} → DashSet T S → List (Row T K (Unit {ℓ}))
par_iter_set set = par_iter set.inner

module _ {ℓ} {K V : Type ℓ} (H : HashTable (K × V)) where
  open H use {T, slots}

  -- What an event makes of a shard and its task, and the items that it gives. An event that is not
  -- possible now does not happen.
  unfoldable pub occur : Event → RwLock T → Task K V → Outcome (Row T K V × List (K × V))
  unfolding let_go
  occur start s unstarted = do
    raw ← Alone.lock_shared s.raw
    done (record { shard = record s { raw = raw }; task = running 0 (pairs H s.data_ptr) }, [])
  occur give s (running refs (e ∷ es)) =
      done (record { shard = s; task = running (suc refs) es }, e ∷ [])
  occur release s (running (suc refs) es) = done (record { shard = s; task = running refs es }, [])
  occur release s (ended (suc zero)) = done (let_go s, [])
  occur release s (ended (suc (suc refs))) =
      done (record { shard = s; task = ended (suc refs) }, [])
  occur finish s (running zero []) = done (let_go s, [])
  occur finish s (running (suc refs) []) = done (record { shard = s; task = ended (suc refs) }, [])
  occur _ s _ = blocked

  abbrev pub occur_in : Event → Row T K V → Outcome (Row T K V × List (K × V))
  occur_in e r = occur e r.shard r.task
