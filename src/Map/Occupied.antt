-- ===== src/Map/Occupied.antt =====
-- src/mapref/entry.rs: `OccupiedEntry`. It holds the write lock of its shard; `pos` and `entry` stand
-- for the entry of the table, which stays where it is while the lock is held.
use dashmap.Base.{ℕ}
use dashmap.Base.Outcome.{Outcome, done, ◌>>=◌}
use dashmap.Table.{HashTable}
use dashmap.Map.{DashMap, RefMut, shard_at, store, drop_write}

pub record OccupiedEntry {ℓ} (K V : Type ℓ) : Type ℓ where
  pub shard : ℕ
  pub pos : ℕ
  pub entry : K × V
  pub key : K

module _ {ℓ} {K V : Type ℓ} where
  abbrev pub get : OccupiedEntry K V → V
  get o = o.entry.1

  -- the key that the map has, and the one that `entry` was given
  abbrev pub key_of : OccupiedEntry K V → K
  key_of o = o.entry.0

  abbrev pub into_key : OccupiedEntry K V → K
  into_key o = o.key

  abbrev pub into_ref : OccupiedEntry K V → RefMut K V
  into_ref o = record { guard = o.shard; pos = o.pos; k = o.entry.0; v = o.entry.1 }

module _ {ℓ} {K V S : Type ℓ} (H : HashTable (K × V)) where
  open H use {T, slots}

  -- a write of the whole entry
  unfoldable pub replace : OccupiedEntry K V → K × V → DashMap T S → Outcome (DashMap T S)
  unfolding shard_at store
  replace o x m = do s ← shard_at m o.shard; store o.shard (H.write s.data_ptr o.pos x) m

  -- `*get_mut() = v`
  unfoldable pub set_mut :
      OccupiedEntry K V → V → DashMap T S → Outcome (OccupiedEntry K V × DashMap T S)
  unfolding replace
  set_mut o v m = do m' ← replace o (o.entry.0, v) m; done (record o { entry = (o.entry.0, v) }, m')

  -- The value that was there, the entry with the new one, and the map.
  unfoldable pub insert :
      OccupiedEntry K V → V → DashMap T S → Outcome (V × OccupiedEntry K V × DashMap T S)
  unfolding set_mut
  insert o v m = do (o', m') ← set_mut o v m; done (get o, o', m')

  -- The entry leaves the table, and its guard is dropped.
  unfoldable pub remove_entry : OccupiedEntry K V → DashMap T S → Outcome ((K × V) × DashMap T S)
  unfolding shard_at store drop_write
  remove_entry o m = do
    s ← shard_at m o.shard
    m' ← store o.shard (H.remove s.data_ptr o.pos) m
    freed ← drop_write o.shard m'
    done (o.entry, freed)

  unfoldable pub remove : OccupiedEntry K V → DashMap T S → Outcome (V × DashMap T S)
  unfolding remove_entry
  remove o m = do (x, m') ← remove_entry o m; done (x.1, m')

  -- The key that `entry` was given takes the place of the one that the map has.
  unfoldable pub replace_entry :
      OccupiedEntry K V → V → DashMap T S → Outcome ((K × V) × DashMap T S)
  unfolding replace drop_write
  replace_entry o v m = do
    m' ← replace o (o.key, v) m
    freed ← drop_write o.shard m'
    done (o.entry, freed)
