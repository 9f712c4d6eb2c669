-- ===== src/Map.antt =====
-- src/lib.rs: the sharded map and what its operations share. `T` is the type of a shard's table.
-- A guard is the index of the shard whose lock it holds; the lock's word is in the map.
pub mod State
pub mod Guards
pub mod Search
pub mod Tables
pub mod Updates
pub mod Access
pub mod Occupied
pub mod Vacant
pub mod Entry
pub mod Held
pub mod Inserting
pub mod Leaving
pub mod Whole
pub mod Loops
pub mod Sizes
pub mod Reserving
pub mod Copied
pub mod Copying
pub mod Retaining
pub mod Making
pub mod Fresh
pub mod Extending
pub mod Distinct
pub mod Operators
pub mod Iter
pub mod Pairs
pub mod Owning
pub mod Visiting
pub mod IterMut
pub mod Altered
pub mod Altering
pub mod Turns
pub mod AlterAll
pub mod Mapped
pub mod Building
use dashmap.Base.{
  ℕ, ◌+◌, ◌-◌, ◌*◌, ◌/◌, ◌%◌, ◌^◌, Bool, true, false, not, ◌||◌, Option, none, some, List, [], ◌∷◌,
  length, get_elem?, set, replicate, ltb, if◌then◌else◌,
}
use dashmap.Base.Outcome.{Outcome, done, blocked, panicked, ◌>>=◌}
use dashmap.Key.{Key}
use dashmap.Lock.Alone
use dashmap.Shards
use dashmap.Table.{HashTable}

-- `lock_api::RwLock<RawRwLock, T>`
pub record RwLock {ℓ} (T : Type ℓ) : Type ℓ where
  pub raw : ℕ
  pub data_ptr : T

pub record DashMap {ℓ} (T S : Type ℓ) : Type ℓ where
  pub shift : ℕ
  pub shards : List (RwLock T)
  pub hasher : S

module _ {ℓ} {T S : Type ℓ} where
  -- `self.shards[idx]`
  unfoldable pub shard_at : DashMap T S → ℕ → Outcome (RwLock T)
  shard_at m idx = elim (get_elem? m.shards idx) [ some s ↦ done s | none ↦ panicked ]

  abbrev pub put_shard : DashMap T S → ℕ → RwLock T → DashMap T S
  put_shard m idx s = record m { shards = set m.shards idx s }

  -- `read` and `write`, with the guard detached: the table, and the map with the lock taken
  unfoldable pub read : DashMap T S → ℕ → Outcome (T × DashMap T S)
  unfolding shard_at
  read m idx = do
    s ← shard_at m idx
    raw ← Alone.lock_shared s.raw
    done (s.data_ptr, put_shard m idx (record s { raw = raw }))

  unfoldable pub write : DashMap T S → ℕ → Outcome (T × DashMap T S)
  unfolding shard_at
  write m idx = do
    s ← shard_at m idx
    raw ← Alone.lock_exclusive s.raw
    done (s.data_ptr, put_shard m idx (record s { raw = raw }))

  unfoldable pub try_read : DashMap T S → ℕ → Outcome (Option (T × DashMap T S))
  unfolding shard_at
  try_read m idx = do
    s ← shard_at m idx
    elim (Alone.try_lock_shared s.raw) [
      | some raw ↦ done (some (s.data_ptr, put_shard m idx (record s { raw = raw })))
      | none ↦ done none
    ]

  unfoldable pub try_write : DashMap T S → ℕ → Outcome (Option (T × DashMap T S))
  unfolding shard_at
  try_write m idx = do
    s ← shard_at m idx
    elim (Alone.try_lock_exclusive s.raw) [
      | some raw ↦ done (some (s.data_ptr, put_shard m idx (record s { raw = raw })))
      | none ↦ done none
    ]

  -- the `drop` of a detached guard, src/util.rs
  unfoldable pub drop_read : ℕ → DashMap T S → Outcome (DashMap T S)
  unfolding shard_at
  drop_read idx m = do
    s ← shard_at m idx
    done (put_shard m idx (record s { raw = Alone.unlock_shared s.raw }))

  unfoldable pub drop_write : ℕ → DashMap T S → Outcome (DashMap T S)
  unfolding shard_at
  drop_write idx m = do
    s ← shard_at m idx
    done (put_shard m idx (record s { raw = Alone.unlock_exclusive s.raw }))

  -- `RwLockWriteGuardDetached::downgrade`
  unfoldable pub downgrade_guard : ℕ → DashMap T S → Outcome (DashMap T S)
  unfolding shard_at
  downgrade_guard idx m = do
    s ← shard_at m idx
    done (put_shard m idx (record s { raw = Alone.downgrade s.raw }))

  -- a write to the table behind the guard
  unfoldable pub store : ℕ → T → DashMap T S → Outcome (DashMap T S)
  unfolding shard_at
  store idx t m = do s ← shard_at m idx; done (put_shard m idx (record s { data_ptr = t }))

-- `Ref` and `RefMut`, src/mapref/one.rs. The entry stays where it is while the guard is held: a
-- `RefMut` has its position, for the writes.
pub record Ref {ℓ} (K V : Type ℓ) : Type ℓ where
  pub guard : ℕ
  pub k : K
  pub v : V

pub record RefMut {ℓ} (K V : Type ℓ) : Type ℓ where
  pub guard : ℕ
  pub pos : ℕ
  pub k : K
  pub v : V

module _ {ℓ} {K V S : Type ℓ} (key : Key K S) (H : HashTable (K × V)) where
  open H use {T, slots}

  -- the constructor that all others call
  unfoldable pub with_capacity_and_hasher_and_shard_amount : ℕ → S → ℕ → Outcome (DashMap T S)
  with_capacity_and_hasher_and_shard_amount capacity hasher shard_amount =
      if not (ltb 1 shard_amount) || not (Shards.is_power_of_two shard_amount) then panicked else do
        cps ← Shards.shard_capacity capacity shard_amount
        done (record {
          shift = Shards.ptr_size_bits - Shards.ncb shard_amount;
          shards = replicate shard_amount (record { raw = 0; data_ptr = H.with_capacity cps });
          hasher = hasher;
        })

  unfoldable pub hash_u64 : DashMap T S → K → ℕ
  hash_u64 m item = key.hash m.hasher item

  -- the cast to `usize` cuts nothing off on 64 bits
  unfoldable pub hash_usize : DashMap T S → K → ℕ
  unfolding hash_u64
  hash_usize m item = hash_u64 m item % 2 ^ Shards.ptr_size_bits

  unfoldable pub determine_shard : DashMap T S → ℕ → Outcome ℕ
  determine_shard m hash = Shards.determine_shard m.shift (length m.shards) hash

  unfoldable pub determine_map : DashMap T S → K → Outcome ℕ
  unfolding hash_usize determine_shard
  determine_map m k = determine_shard m (hash_usize m k)

  -- The search of a shard: the position of what it finds, and the pair that stands there.
  unfoldable pub search_shard : T → ℕ → K → Option (ℕ × (K × V))
  search_shard t hash k = elim (H.find t hash (λ e. key.equal k e.0)) [
    | none ↦ none
    | some i ↦ elim (get_elem? (slots t) i) [ none ↦ none | some e ↦ some (i, e.1) ]
  ]

  -- the hasher that the table is given for its entries
  abbrev pub rehash : DashMap T S → K × V → ℕ
  rehash m e = key.hash m.hasher e.0
