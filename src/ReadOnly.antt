-- ===== src/ReadOnly.antt =====
-- src/read_only.rs: the view of a map that reads without locks.
pub mod Reading
use dashmap.Base.{ℕ, Bool, Option, none, some, List, [], ◌∷◌, ◌++◌, map, get_elem?, is_some}
use mathlib.Core.Option
use dashmap.Base.Outcome.{Outcome, done, ◌>>=◌}
use dashmap.Key.{Key}
use dashmap.Table.{HashTable}
use dashmap.Clone.{Clone}
use dashmap.Map.{RwLock, DashMap, hash_u64, determine_shard, search_shard, shard_at}
use dashmap.Map.Iter.{pairs}
use dashmap.Map.Whole

pub record ReadOnlyView {ℓ} (T S : Type ℓ) : Type ℓ where
  pub map : DashMap T S

module _ {ℓ} {T S : Type ℓ} where
  -- `into_read_only`, and `ReadOnlyView::new`
  abbrev pub into_read_only : DashMap T S → ReadOnlyView T S
  into_read_only m = record { map = m }

  abbrev pub into_inner : ReadOnlyView T S → DashMap T S
  into_inner view = view.map

module _ {ℓ} {A B : Type ℓ} where
  -- `flat_map`
  unfoldable pub flat_map : (A → List B) → List A → List B
  flat_map f [] = []
  flat_map f (x ∷ xs) = f x ++ flat_map f xs

module _ {ℓ} {K V S : Type ℓ} (key : Key K S) (H : HashTable (K × V)) where
  open H use {T, slots}

  -- The table is read through `data_ptr`, whatever the lock is.
  unfoldable pub get_key_value : ReadOnlyView T S → K → Outcome (Option (K × V))
  unfolding hash_u64 determine_shard shard_at search_shard
  get_key_value view k = do
    let hash = hash_u64 key H view.map k
    idx ← determine_shard key H view.map hash
    shard ← shard_at view.map idx
    done (Option.map (λ found. found.1) (search_shard key H shard.data_ptr hash k))

  unfoldable pub get : ReadOnlyView T S → K → Outcome (Option V)
  unfolding get_key_value
  get view k = do e ← get_key_value view k; done (Option.map (λ e. e.1) e)

  unfoldable pub contains_key : ReadOnlyView T S → K → Outcome Bool
  unfolding get
  contains_key view k = do v ← get view k; done (is_some v)

  unfoldable pub iter : ReadOnlyView T S → List (K × V)
  unfolding flat_map
  iter view = flat_map (λ t. pairs H t) (map (λ s. s.data_ptr) view.map.shards)

  unfoldable pub keys : ReadOnlyView T S → List K
  unfolding iter
  keys view = map (λ e. e.0) (iter view)

  unfoldable pub values : ReadOnlyView T S → List V
  unfolding iter
  values view = map (λ e. e.1) (iter view)

  -- `len`, `is_empty` and `capacity` are those of the map, and take its locks.
  unfoldable pub len : ReadOnlyView T S → Outcome (ℕ × ReadOnlyView T S)
  len view = do (n, m) ← Whole.len key H view.map; done (n, into_read_only m)

  unfoldable pub is_empty : ReadOnlyView T S → Outcome (Bool × ReadOnlyView T S)
  is_empty view = do (b, m) ← Whole.is_empty key H view.map; done (b, into_read_only m)

  unfoldable pub capacity : ReadOnlyView T S → Outcome (ℕ × ReadOnlyView T S)
  capacity view = do (n, m) ← Whole.capacity key H view.map; done (n, into_read_only m)

  unfoldable pub clone :
      Clone key H → ReadOnlyView T S → Outcome (ReadOnlyView T S × ReadOnlyView T S)
  clone C view = do
    (copy, m) ← Whole.clone key H C view.map
    done (into_read_only copy, into_read_only m)
