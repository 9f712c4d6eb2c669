-- ===== src/Map/Whole.antt =====
-- src/lib.rs: the operations on the whole map, which go through the shards one by one and hold one
-- lock at a time.
use dashmap.Base.{
  ℕ, ◌+◌, ◌^◌, Bool, true, false, none, some, List, [], ◌∷◌, map, length, ltb, ◌==◌, if◌then◌else◌,
}
use dashmap.Base.Outcome.{Outcome, done, panicked, ◌>>=◌}
use dashmap.Key.{Key}
use dashmap.Lock.Alone
use dashmap.Table.{HashTable}
use dashmap.Clone.{Clone}
use dashmap.Map.{RwLock, DashMap, rehash}

-- `for_each` over the shards, in their order
unfoldable pub for_each {ℓ} : {A B : Type ℓ} → (A → Outcome B) → List A → Outcome (List B)
for_each f [] = done []
for_each f (x ∷ xs) = do y ← f x; ys ← for_each f xs; done (y ∷ ys)

module _ {ℓ} {T : Type ℓ} where
  -- the body of a loop that writes: lock, change the table, let go
  unfoldable pub with_write : (T → T) → RwLock T → Outcome (RwLock T)
  with_write f s = do
    raw ← Alone.lock_exclusive s.raw
    done (record { raw = Alone.unlock_exclusive raw; data_ptr = f s.data_ptr })

  -- `iter().map(|s| s.read().f()).sum()`, which panics on an overflow
  unfoldable pub sum_read : (T → ℕ) → ℕ → List (RwLock T) → Outcome (ℕ × List (RwLock T))
  sum_read f acc [] = done (acc, [])
  sum_read f acc (s ∷ ss) = do
    raw ← Alone.lock_shared s.raw
    let sum = acc + f s.data_ptr
    (n, rest) ← if ltb sum (2 ^ 64) then sum_read f sum ss else panicked
    done (n, record { raw = Alone.unlock_shared raw; data_ptr = s.data_ptr } ∷ rest)

  -- `clone_rwlock`, with the `clone` of a table: the copy, which nobody holds, and the shard that was
  -- read
  unfoldable pub clone_rwlock : (T → T) → RwLock T → Outcome (RwLock T × RwLock T)
  clone_rwlock clone_table s = do
    raw ← Alone.lock_shared s.raw
    done (
      record { raw = 0; data_ptr = clone_table s.data_ptr },
      record { raw = Alone.unlock_shared raw; data_ptr = s.data_ptr },
    )

module _ {ℓ} {K V S : Type ℓ} (key : Key K S) (H : HashTable (K × V)) where
  open H use {T, slots}

  -- a loop that writes to each shard
  unfoldable pub for_each_write : (T → T) → DashMap T S → Outcome (DashMap T S)
  unfolding for_each with_write
  for_each_write f m = do
    shards ← for_each (with_write f) m.shards
    done (record m { shards = shards })

  unfoldable pub sum_each : (T → ℕ) → DashMap T S → Outcome (ℕ × DashMap T S)
  unfolding sum_read
  sum_each f m = do (n, shards) ← sum_read f 0 m.shards; done (n, record m { shards = shards })

  unfoldable pub shrink_to_fit : DashMap T S → Outcome (DashMap T S)
  unfolding for_each_write
  shrink_to_fit m = for_each_write (λ t. H.shrink_to t (length (slots t)) (rehash key H m)) m

  -- `retain`: the closure may change the value, and says whether the entry stays.
  unfoldable pub retain : DashMap T S → (K → V → Bool × V) → Outcome (DashMap T S)
  unfolding for_each_write
  retain m f = for_each_write (λ t. H.retain t (λ e. ((f e.0 e.1).0, (e.0, (f e.0 e.1).1)))) m

  unfoldable pub clear : DashMap T S → Outcome (DashMap T S)
  unfolding retain
  clear m = retain m (λ _ v. (false, v))

  unfoldable pub len : DashMap T S → Outcome (ℕ × DashMap T S)
  unfolding sum_each
  len m = sum_each (λ t. length (slots t)) m

  unfoldable pub capacity : DashMap T S → Outcome (ℕ × DashMap T S)
  unfolding sum_each
  capacity m = sum_each H.capacity m

  unfoldable pub is_empty : DashMap T S → Outcome (Bool × DashMap T S)
  unfolding len
  is_empty m = do (n, m') ← len m; done (n == 0, m')

  -- `clone`: the copy, and the map
  unfoldable pub clone : Clone key H → DashMap T S → Outcome (DashMap T S × DashMap T S)
  unfolding for_each clone_rwlock
  clone C m = do
    copies ← for_each (clone_rwlock C.clone_table) m.shards
    done (
      record { shift = m.shift; shards = map (λ p. p.0) copies; hasher = C.clone_hasher m.hasher },
      record m { shards = map (λ p. p.1) copies },
    )

  -- The loop of `try_reserve`, which ends at the first error: whether there was none, and the shards.
  unfoldable pub try_reserve_each :
      (K × V → ℕ) → ℕ → List (RwLock T) → Outcome (Bool × List (RwLock T))
  try_reserve_each hasher additional [] = done (true, [])
  try_reserve_each hasher additional (s ∷ ss) = do
    raw ← Alone.lock_exclusive s.raw
    let freed = Alone.unlock_exclusive raw
    elim (H.try_reserve s.data_ptr additional hasher) [
      | none ↦ done (false, record { raw = freed; data_ptr = s.data_ptr } ∷ ss)
      | some t ↦ do
        (ok, rest) ← try_reserve_each hasher additional ss
        done (ok, record { raw = freed; data_ptr = t } ∷ rest)
    ]

  unfoldable pub try_reserve : DashMap T S → ℕ → Outcome (Bool × DashMap T S)
  unfolding try_reserve_each
  try_reserve m additional = do
    (ok, shards) ← try_reserve_each (rehash key H m) additional m.shards
    done (ok, record m { shards = shards })
