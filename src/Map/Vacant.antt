-- ===== src/Map/Vacant.antt =====
-- src/mapref/entry.rs: `VacantEntry`. It holds the write lock of its shard; `hash` stands for the
-- vacant place that the table has found.
use dashmap.Base.{ℕ}
use dashmap.Base.Outcome.{Outcome, done, ◌>>=◌}
use dashmap.Key.{Key}
use dashmap.Table.{HashTable}
use dashmap.Map.{DashMap, RefMut, shard_at, store, rehash}
use dashmap.Map.Occupied.{OccupiedEntry}

pub record VacantEntry {ℓ} (K : Type ℓ) : Type ℓ where
  pub shard : ℕ
  pub key : K
  pub hash : ℕ

-- `key` and `into_key`
abbrev pub key_of {ℓ} : {K : Type ℓ} → VacantEntry K → K
key_of e = e.key

module _ {ℓ} {K V S : Type ℓ} (key : Key K S) (H : HashTable (K × V)) where
  open H use {T, slots}

  unfoldable pub insert : VacantEntry K → V → DashMap T S → Outcome (RefMut K V × DashMap T S)
  unfolding shard_at store
  insert e v m = do
    s ← shard_at m e.shard
    let occupied = H.insert s.data_ptr e.hash (e.key, v) (rehash key H m)
    m' ← store e.shard occupied.0 m
    done (record { guard = e.shard; pos = occupied.1; k = e.key; v = v }, m')

  -- A clone of the key is stored, by the `clone` of the key's type, and the key kept beside the entry.
  unfoldable pub insert_entry :
      (K → K) → VacantEntry K → V → DashMap T S → Outcome (OccupiedEntry K V × DashMap T S)
  unfolding shard_at store
  insert_entry clone_key e v m = do
    s ← shard_at m e.shard
    let occupied = H.insert s.data_ptr e.hash (clone_key e.key, v) (rehash key H m)
    m' ← store e.shard occupied.0 m
    done (
      record { shard = e.shard; pos = occupied.1; entry = (clone_key e.key, v); key = e.key },
      m',
    )
