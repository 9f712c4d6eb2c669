-- ===== src/Map/Operators.antt =====
-- src/lib.rs: the operators on a map.
use dashmap.Base.{Bool, Option, none, some}
use dashmap.Base.Outcome.{Outcome, done, panicked, ◌>>=◌}
use dashmap.Key.{Key}
use dashmap.Table.{HashTable}
use dashmap.Map.{DashMap, Ref, RefMut}
use dashmap.Map.Access.{get, get_mut, remove, contains_key}
use dashmap.Map.Entry.{insert}

module _ {ℓ} {A B : Type ℓ} where
  -- `unwrap` of what a call returned
  abbrev unwrap : Option A × B → Outcome (A × B)
  unwrap (some a, b) = done (a, b)
  unwrap (none, b) = panicked

module _ {ℓ} {K V S : Type ℓ} (key : Key K S) (H : HashTable (K × V)) where
  open H use {T, slots}

  -- `map << (k, v)`
  unfoldable pub shl : DashMap T S → K × V → Outcome (Option V × DashMap T S)
  shl m pair = insert key H m pair.0 pair.1

  -- `map >> k`
  unfoldable pub shr : DashMap T S → K → Outcome (Ref K V × DashMap T S)
  shr m k = do r ← get key H m k; unwrap r

  -- `map | k`
  unfoldable pub bitor : DashMap T S → K → Outcome (RefMut K V × DashMap T S)
  bitor m k = do r ← get_mut key H m k; unwrap r

  -- `map - k`
  unfoldable pub sub : DashMap T S → K → Outcome (Option (K × V) × DashMap T S)
  sub m k = remove key H m k

  -- `map & k`
  unfoldable pub bitand : DashMap T S → K → Outcome (Bool × DashMap T S)
  bitand m k = contains_key key H m k
