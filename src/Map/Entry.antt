-- ===== src/Map/Entry.antt =====
-- src/mapref/entry.rs: `Entry`, and the operations of src/lib.rs that make one.
use dashmap.Base.{ℕ, Option, none, some, ◌⊎◌, inl, inr, get_elem?}
use dashmap.Base.Outcome.{Outcome, done, ◌>>=◌}
use dashmap.Key.{Key}
use dashmap.Table.{HashTable}
use dashmap.Map.{DashMap, RefMut, write, try_write, drop_write, hash_u64, determine_shard}
use dashmap.Map.Occupied
use dashmap.Map.Occupied.{OccupiedEntry}
use dashmap.Map.Vacant
use dashmap.Map.Vacant.{VacantEntry}

pub data Entry {ℓ} (K V : Type ℓ) : Type ℓ where
  occupied : OccupiedEntry K V → Entry K V
  vacant : VacantEntry K → Entry K V

module _ {ℓ} {K V : Type ℓ} where
  -- `key`: the map's where it has the entry
  abbrev pub key_of : Entry K V → K
  key_of (occupied o) = Occupied.key_of o
  key_of (vacant e) = Vacant.key_of e

  -- `into_key`: the one that `entry` was given
  abbrev pub into_key : Entry K V → K
  into_key (occupied o) = Occupied.into_key o
  into_key (vacant e) = Vacant.key_of e

module _ {ℓ} {K V S : Type ℓ} (key : Key K S) (H : HashTable (K × V)) where
  open H use {T, slots}

  -- the `entry` of the table of a shard
  unfoldable pub table_entry : T → ℕ → ℕ → K → Entry K V
  table_entry t idx hash k = elim (H.find t hash (λ e. key.equal e.0 k)) [
    | none ↦ vacant (record { shard = idx; key = k; hash = hash })
    | some i ↦ elim (get_elem? (slots t) i) [
      | none ↦ vacant (record { shard = idx; key = k; hash = hash })
      | some e ↦ occupied (record { shard = idx; pos = i; entry = e.1; key = k })
    ]
  ]

  unfoldable pub entry : DashMap T S → K → Outcome (Entry K V × DashMap T S)
  unfolding hash_u64 write
  entry m k = do
    let hash = hash_u64 key H m k
    idx ← determine_shard key H m hash
    (shard, m') ← write m idx
    done (table_entry shard idx hash k, m')

  unfoldable pub try_entry : DashMap T S → K → Outcome (Option (Entry K V × DashMap T S))
  unfolding hash_u64 try_write
  try_entry m k = do
    let hash = hash_u64 key H m k
    idx ← determine_shard key H m hash
    attempt ← try_write m idx
    elim attempt [
      | none ↦ done none
      | some (shard, m') ↦ done (some (table_entry shard idx hash k, m'))
    ]

  -- `drop` of an entry that nothing was done with
  abbrev pub drop_entry : Entry K V → DashMap T S → Outcome (DashMap T S)
  drop_entry (occupied o) = drop_write o.shard
  drop_entry (vacant e) = drop_write e.shard

  unfoldable pub and_modify : Entry K V → (V → V) → DashMap T S → Outcome (Entry K V × DashMap T S)
  unfolding Occupied.set_mut
  and_modify (occupied o) f m = do
    (o', m') ← Occupied.set_mut H o (f (Occupied.get o)) m
    done (occupied o', m')
  and_modify (vacant e) f m = done (vacant e, m)

  unfoldable pub or_insert : Entry K V → V → DashMap T S → Outcome (RefMut K V × DashMap T S)
  unfolding Vacant.insert
  or_insert (occupied o) value m = done (Occupied.into_ref o, m)
  or_insert (vacant e) value m = Vacant.insert key H e value m

  -- `or_insert_with`: the function is called where there is no entry
  unfoldable pub or_insert_with :
      Entry K V → (Unit {0} → V) → DashMap T S → Outcome (RefMut K V × DashMap T S)
  unfolding Vacant.insert
  or_insert_with (occupied o) value m = done (Occupied.into_ref o, m)
  or_insert_with (vacant e) value m = Vacant.insert key H e (value tt) m

  -- `or_default`, with the value of `V: Default`
  unfoldable pub or_default :
      (default : V) → Entry K V → DashMap T S → Outcome (RefMut K V × DashMap T S)
  unfolding Vacant.insert
  or_default default (occupied o) m = done (Occupied.into_ref o, m)
  or_default default (vacant e) m = Vacant.insert key H e default m

  -- On an error of the function the entry is dropped.
  unfoldable pub or_try_insert_with {κ} :
      {E : Type κ}
      → Entry K V
      → (Unit {0} → V ⊎ E)
      → DashMap T S
      → Outcome ((RefMut K V ⊎ E) × DashMap T S)
  unfolding Vacant.insert drop_write
  or_try_insert_with (occupied o) value m = done (inl (Occupied.into_ref o), m)
  or_try_insert_with (vacant e) value m = elim (value tt) [
    | inl v ↦ do (r, m') ← Vacant.insert key H e v m; done (inl r, m')
    | inr err ↦ do m' ← drop_write e.shard m; done (inr err, m')
  ]

  unfoldable pub insert_value : Entry K V → V → DashMap T S → Outcome (RefMut K V × DashMap T S)
  unfolding Occupied.insert Vacant.insert
  insert_value (occupied o) value m = do
    (_, o', m') ← Occupied.insert H o value m
    done (Occupied.into_ref o', m')
  insert_value (vacant e) value m = Vacant.insert key H e value m

  -- with the `clone` of a key
  unfoldable pub insert_entry :
      (K → K) → Entry K V → V → DashMap T S → Outcome (OccupiedEntry K V × DashMap T S)
  unfolding Occupied.insert Vacant.insert_entry
  insert_entry clone_key (occupied o) value m = do
    (_, o', m') ← Occupied.insert H o value m
    done (o', m')
  insert_entry clone_key (vacant e) value m = Vacant.insert_entry key H clone_key e value m

  -- `DashMap::insert`: the value that was under the key
  unfoldable pub insert : DashMap T S → K → V → Outcome (Option V × DashMap T S)
  unfolding entry Occupied.insert Vacant.insert drop_write
  insert m k value = do
    (e, m') ← entry m k
    elim e [
      | occupied o ↦ do
        (old, o', m'') ← Occupied.insert H o value m'
        freed ← drop_write o'.shard m''
        done (some old, freed)
      | vacant e' ↦ do
        (r, m'') ← Vacant.insert key H e' value m'
        freed ← drop_write r.guard m''
        done (none, freed)
    ]
