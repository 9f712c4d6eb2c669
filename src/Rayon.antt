-- ===== src/Rayon.antt =====
-- src/rayon/map.rs and src/rayon/set.rs: `par_extend` and `from_par_iter`. rayon calls the closure of
-- `for_each` once for each item, on any number of threads: each call is a worker, and the workers
-- step in any order. A worker that waits for a lock steps when it can have it.
pub mod Commit
pub mod Released
pub mod Workers
pub mod Between
pub mod Atomic
pub mod Runs
pub mod Tasks
pub mod ParIter
pub mod ParIterMut
pub mod OwningIter
use dashmap.Base.{ℕ, zero, suc, ◌+◌, ◌≡◌, Option, none, some, List, map, get_elem?, set}
use dashmap.Base.Outcome.{Outcome, done, blocked, ◌>>=◌}
use dashmap.Key.{Key}
use dashmap.Table.{HashTable}
use dashmap.Map.{DashMap, drop_write}
use dashmap.Map.Occupied
use dashmap.Map.Vacant
use dashmap.Map.Entry.{Entry, occupied, vacant, entry}
use dashmap.Map.Making.{default}
use dashmap.DashSet
use dashmap.DashSet.{DashSet}

-- A call of `map.insert(key, value)`: before it has the lock of its shard, while it has it, and
-- after it has let go.
pub data Worker {ℓ} (K V : Type ℓ) : Type ℓ where
  waiting : K → V → Worker K V
  inside : Entry K V → V → Worker K V
  finished : Worker K V

pub record ParExtend {ℓ} (T S K V : Type ℓ) : Type ℓ where
  pub map : DashMap T S
  pub workers : List (Worker K V)

module _ {ℓ} {K V : Type ℓ} where
  -- the closure of `for_each`, for an item
  abbrev pub worker : K × V → Worker K V
  worker e = waiting e.0 e.1

  abbrev pub par_extend : {T S : Type ℓ} → DashMap T S → List (K × V) → ParExtend T S K V
  par_extend m par_iter = record { map = m; workers = map worker par_iter }

-- `set.insert(key)` for each key, whose answer is dropped
abbrev pub par_extend_set {ℓ} : {K T S : Type ℓ} → DashSet T S → List K → ParExtend T S K (Unit {ℓ})
par_extend_set s par_iter = par_extend s.inner (map (λ k. (k, tt)) par_iter)

module _ {ℓ} {K V S : Type ℓ} (key : Key K S) (H : HashTable (K × V)) where
  open H use {T, slots}

  -- `insert` from where it has the lock to its end
  unfoldable pub complete : Entry K V → V → DashMap T S → Outcome (Option V × DashMap T S)
  unfolding Occupied.insert Vacant.insert drop_write
  complete (occupied o) value m = do
    (old, o', m') ← Occupied.insert H o value m
    freed ← drop_write o'.shard m'
    done (some old, freed)
  complete (vacant e) value m = do
    (r, m') ← Vacant.insert key H e value m
    freed ← drop_write r.guard m'
    done (none, freed)

  unfoldable pub advance : Worker K V → DashMap T S → Outcome (Worker K V × DashMap T S)
  unfolding entry complete
  advance (waiting k v) m = do (e, m') ← entry key H m k; done (inside e v, m')
  advance (inside e v) m = do (_, m') ← complete e v m; done (finished, m')
  advance finished m = blocked

  -- `Self::default()`, and then `par_extend`
  unfoldable pub from_par_iter : Option ℕ → S → List (K × V) → Outcome (ParExtend T S K V)
  unfolding default
  from_par_iter parallelism default_hasher par_iter = do
    m ← default key H parallelism default_hasher
    done (par_extend m par_iter)

  -- One of the workers takes its next step.
  pub data Step (p : ParExtend T S K V) : ParExtend T S K V → Type ℓ where
    turn :
        (i : ℕ) {w w' : Worker K V} {m' : DashMap T S}
        → get_elem? p.workers i ≡ some w
        → advance w p.map ≡ done (w', m')
        → Step p (record { map = m'; workers = set p.workers i w' })

  pub data Reach (p : ParExtend T S K V) : ParExtend T S K V → Type ℓ where
    here : Reach p p
    next : {q r : ParExtend T S K V} → Reach p q → Step q r → Reach p r

  -- how many steps a run has
  unfoldable pub steps : {p q : ParExtend T S K V} → Reach p q → ℕ
  steps here = 0
  steps (next r s) = suc (steps r)

module _ {ℓ} {K S : Type ℓ} (key : Key K S) (H : HashTable (K × Unit {ℓ})) where
  open H use {T, slots}

  -- `Self::default()`, and then `par_extend`
  unfoldable pub from_par_iter_set : Option ℕ → S → List K → Outcome (ParExtend T S K (Unit {ℓ}))
  unfolding DashSet.default
  from_par_iter_set parallelism default_hasher par_iter = do
    s ← DashSet.default key H parallelism default_hasher
    done (par_extend_set s par_iter)
