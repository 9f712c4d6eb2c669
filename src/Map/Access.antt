-- ===== src/Map/Access.antt =====
-- src/lib.rs: the operations on one key that make no entry, and what src/mapref/one.rs does with a
-- reference into the map.
pub mod Removing
pub mod Writing
pub mod Reading
use dashmap.Base.{ℕ, Bool, true, false, Option, none, some, List, get_elem?, length, if◌then◌else◌}
use dashmap.Base.Outcome.{Outcome, done, blocked, panicked, ◌>>=◌}
use dashmap.Key.{Key}
use dashmap.Table.{HashTable}
use dashmap.TryResult.{TryResult, present, absent, locked}
use dashmap.Map.{
  RwLock, DashMap, Ref, RefMut, shard_at, put_shard, read, write, try_read, try_write, drop_read,
  drop_write, downgrade_guard, store, hash_u64, determine_shard, search_shard,
}

module _ {ℓ} {K V S : Type ℓ} (key : Key K S) (H : HashTable (K × V)) where
  open H use {T, slots}

  -- `drop` of a `Ref` and of a `RefMut`
  abbrev pub drop_ref : Ref K V → DashMap T S → Outcome (DashMap T S)
  drop_ref r = drop_read r.guard

  abbrev pub drop_ref_mut : RefMut K V → DashMap T S → Outcome (DashMap T S)
  drop_ref_mut r = drop_write r.guard

  abbrev pub pair : Ref K V → K × V
  pair r = (r.k, r.v)

  abbrev pub pair_mut : RefMut K V → K × V
  pair_mut r = (r.k, r.v)

  -- `*value_mut() = v`
  unfoldable pub set_value : RefMut K V → V → DashMap T S → Outcome (RefMut K V × DashMap T S)
  unfolding shard_at store
  set_value r v m = do
    s ← shard_at m r.guard
    m' ← store r.guard (H.write s.data_ptr r.pos (r.k, v)) m
    done (record r { v = v }, m')

  -- `RefMut::downgrade`
  unfoldable pub downgrade : RefMut K V → DashMap T S → Outcome (Ref K V × DashMap T S)
  unfolding downgrade_guard
  downgrade r m = do
    m' ← downgrade_guard r.guard m
    done (record { guard = r.guard; k = r.k; v = r.v }, m')

  unfoldable pub get : DashMap T S → K → Outcome (Option (Ref K V) × DashMap T S)
  unfolding hash_u64 read drop_read search_shard
  get m k = do
    let hash = hash_u64 key H m k
    idx ← determine_shard key H m hash
    (shard, m') ← read m idx
    elim (search_shard key H shard hash k) [
      | some (_, (k', v)) ↦ done (some (record { guard = idx; k = k'; v = v }), m')
      | none ↦ do m'' ← drop_read idx m'; done (none, m'')
    ]

  unfoldable pub get_mut : DashMap T S → K → Outcome (Option (RefMut K V) × DashMap T S)
  unfolding hash_u64 write drop_write search_shard
  get_mut m k = do
    let hash = hash_u64 key H m k
    idx ← determine_shard key H m hash
    (shard, m') ← write m idx
    elim (search_shard key H shard hash k) [
      | some (i, (k', v)) ↦ done (some (record { guard = idx; pos = i; k = k'; v = v }), m')
      | none ↦ do m'' ← drop_write idx m'; done (none, m'')
    ]

  unfoldable pub try_get : DashMap T S → K → Outcome (TryResult (Ref K V) × DashMap T S)
  unfolding hash_u64 try_read drop_read search_shard
  try_get m k = do
    let hash = hash_u64 key H m k
    idx ← determine_shard key H m hash
    attempt ← try_read m idx
    elim attempt [
      | none ↦ done (locked, m)
      | some (shard, m') ↦ elim (search_shard key H shard hash k) [
        | some (_, (k', v)) ↦ done (present (record { guard = idx; k = k'; v = v }), m')
        | none ↦ do m'' ← drop_read idx m'; done (absent, m'')
      ]
    ]

  unfoldable pub try_get_mut : DashMap T S → K → Outcome (TryResult (RefMut K V) × DashMap T S)
  unfolding hash_u64 try_write drop_write search_shard
  try_get_mut m k = do
    let hash = hash_u64 key H m k
    idx ← determine_shard key H m hash
    attempt ← try_write m idx
    elim attempt [
      | none ↦ done (locked, m)
      | some (shard, m') ↦ elim (search_shard key H shard hash k) [
        | some (i, (k', v)) ↦ done (present (record { guard = idx; pos = i; k = k'; v = v }), m')
        | none ↦ do m'' ← drop_write idx m'; done (absent, m'')
      ]
    ]

  unfoldable pub contains_key : DashMap T S → K → Outcome (Bool × DashMap T S)
  unfolding get drop_read
  contains_key m k = do
    (r, m') ← get m k
    elim r [ some r' ↦ do m'' ← drop_ref r' m'; done (true, m'') | none ↦ done (false, m') ]

  unfoldable pub view {κ} :
      {R : Type κ} → DashMap T S → K → (K → V → R) → Outcome (Option R × DashMap T S)
  unfolding get drop_read
  view m k f = do
    (r, m') ← get m k
    elim r [
      | some r' ↦ do m'' ← drop_ref r' m'; done (some (f r'.k r'.v), m'')
      | none ↦ done (none, m')
    ]

  -- `alter`, with `map_in_place_2` of src/util.rs. The closure does not panic.
  unfoldable pub alter : DashMap T S → K → (K → V → V) → Outcome (DashMap T S)
  unfolding get_mut set_value drop_write
  alter m k f = do
    (r, m') ← get_mut m k
    elim r [
      | some r' ↦ do (r'', m'') ← set_value r' (f r'.k r'.v) m'; drop_ref_mut r'' m''
      | none ↦ done m'
    ]

  -- `remove_if_mut`: the closure may change the value, and says whether the entry goes.
  unfoldable pub remove_if_mut :
      DashMap T S → K → (K → V → Bool × V) → Outcome (Option (K × V) × DashMap T S)
  unfolding hash_u64 write store drop_write search_shard
  remove_if_mut m k f = do
    let hash = hash_u64 key H m k
    idx ← determine_shard key H m hash
    (shard, m') ← write m idx
    elim (search_shard key H shard hash k) [
      | none ↦ do m'' ← drop_write idx m'; done (none, m'')
      | some (i, (k', v)) ↦ do
        let changed = H.write shard i (k', (f k' v).1)
        if (f k' v).0
            then (do
              m'' ← store idx (H.remove changed i) m'
              freed ← drop_write idx m''
              done (some (k', (f k' v).1), freed))
            else (do m'' ← store idx changed m'; freed ← drop_write idx m''; done (none, freed))
    ]

  -- `remove_if`: the closure only reads the value.
  unfoldable pub remove_if :
      DashMap T S → K → (K → V → Bool) → Outcome (Option (K × V) × DashMap T S)
  unfolding hash_u64 write store drop_write search_shard
  remove_if m k f = do
    let hash = hash_u64 key H m k
    idx ← determine_shard key H m hash
    (shard, m') ← write m idx
    elim (search_shard key H shard hash k) [
      | none ↦ do m'' ← drop_write idx m'; done (none, m'')
      | some (i, (k', v)) ↦
          if f k' v
          then (do
            m'' ← store idx (H.remove shard i) m'
            freed ← drop_write idx m''
            done (some (k', v), freed))
          else (do m'' ← drop_write idx m'; done (none, m''))
    ]

  unfoldable pub remove : DashMap T S → K → Outcome (Option (K × V) × DashMap T S)
  unfolding hash_u64 write store drop_write search_shard
  remove m k = do
    let hash = hash_u64 key H m k
    idx ← determine_shard key H m hash
    (shard, m') ← write m idx
    elim (search_shard key H shard hash k) [
      | none ↦ do m'' ← drop_write idx m'; done (none, m'')
      | some (i, (k', v)) ↦ do
        m'' ← store idx (H.remove shard i) m'
        freed ← drop_write idx m''
        done (some (k', v), freed)
    ]
