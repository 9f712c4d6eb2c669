-- ===== src/Concurrent.antt =====
-- src/lib.rs: the calls of many threads on one map. A call takes the lock of one shard, works on the
-- table of that shard, and lets go: other threads step in between.
pub mod Sections
pub mod Guards
pub mod Seen
pub mod Between
pub mod Steps
pub mod Advancing
pub mod Runs
pub mod Ends
pub mod Abstract
use dashmap.Base.{
  ℕ, Bool, true, false, Option, none, some, List, [], ◌∷◌, map, get_elem?, set, if◌then◌else◌,
}
use dashmap.Base.Outcome.{Outcome, done, blocked, ◌>>=◌}
use dashmap.Key.{Key}
use dashmap.Table.{HashTable}
use dashmap.Map.{
  DashMap, read, write, drop_read, drop_write, store, hash_u64, determine_shard, search_shard,
  rehash,
}
use dashmap.Map.Access
use dashmap.Map.Occupied
use dashmap.Map.Entry
use dashmap.Map.Entry.{Entry, occupied, vacant, table_entry}

-- A call, and what it returns. Of the reference that `get` returns the pair is read, and the
-- reference is dropped.
pub data Call {ℓ} (K V : Type ℓ) : Type ℓ where
  get : K → Call K V
  contains_key : K → Call K V
  insert : K → V → Call K V
  remove : K → Call K V
  remove_if : K → (K → V → Bool) → Call K V
  remove_if_mut : K → (K → V → Bool × V) → Call K V
  alter : K → (K → V → V) → Call K V

pub data Reply {ℓ} (K V : Type ℓ) : Type ℓ where
  pair : Option (K × V) → Reply K V
  value : Option V → Reply K V
  flag : Bool → Reply K V
  nothing : Reply K V

-- A thread, with the calls that it has still to make and the replies that it has, the last one first:
-- between two calls; with the lock of a shard and the table that it found there; and with the lock,
-- when its work is done.
pub data Thread {ℓ} (T K V : Type ℓ) : Type ℓ where
  outside : List (Call K V) → List (Reply K V) → Thread T K V
  inside : Call K V → ℕ → T → List (Call K V) → List (Reply K V) → Thread T K V
  leaving : Call K V → ℕ → List (Call K V) → List (Reply K V) → Thread T K V

pub record Threads {ℓ} (T S K V : Type ℓ) : Type ℓ where
  pub map : DashMap T S
  pub threads : List (Thread T K V)

module _ {ℓ} {K V : Type ℓ} where
  abbrev pub key_of : Call K V → K
  key_of (get k) = k
  key_of (contains_key k) = k
  key_of (insert k v) = k
  key_of (remove k) = k
  key_of (remove_if k f) = k
  key_of (remove_if_mut k f) = k
  key_of (alter k f) = k

  -- whether the guard of a call is one for writes
  abbrev pub is_exclusive : Call K V → Bool
  is_exclusive (get k) = false
  is_exclusive (contains_key k) = false
  is_exclusive _ = true

module _ {ℓ} {T S K V : Type ℓ} where
  abbrev pub start : DashMap T S → List (List (Call K V)) → Threads T S K V
  start m programs = record { map = m; threads = map (λ cs. outside cs []) programs }

module _ {ℓ} {K V S : Type ℓ} (key : Key K S) (H : HashTable (K × V)) where
  open H use {T, slots}

  -- A whole call, that nobody disturbs.
  unfoldable pub invoke : Call K V → DashMap T S → Outcome (Reply K V × DashMap T S)
  invoke (get k) m = do
    (r, m') ← Access.get key H m k
    elim r [
      | none ↦ done (pair none, m')
      | some r' ↦ do
        m'' ← Access.drop_ref key H r' m'
        done (pair (some (Access.pair key H r')), m'')
    ]
  invoke (contains_key k) m = do (b, m') ← Access.contains_key key H m k; done (flag b, m')
  invoke (insert k v) m = do (old, m') ← Entry.insert key H m k v; done (value old, m')
  invoke (remove k) m = do (e, m') ← Access.remove key H m k; done (pair e, m')
  invoke (remove_if k f) m = do (e, m') ← Access.remove_if key H m k f; done (pair e, m')
  invoke (remove_if_mut k f) m = do (e, m') ← Access.remove_if_mut key H m k f; done (pair e, m')
  invoke (alter k f) m = do m' ← Access.alter key H m k f; done (nothing, m')

  -- The first step of a call: the lock of the shard.
  unfoldable pub enter : Call K V → DashMap T S → Outcome (ℕ × T × DashMap T S)
  unfolding hash_u64 read write
  enter c m = do
    idx ← determine_shard key H m (hash_u64 key H m (key_of c))
    (shard, m') ← if is_exclusive c then write m idx else read m idx
    done (idx, shard, m')

  -- `insert` with the entry that it has made
  unfoldable pub on_entry : V → (K × V → ℕ) → T → Entry K V → Reply K V × T
  on_entry v hasher shard (occupied o) =
      (value (some (Occupied.get o)), H.write shard o.pos (o.entry.0, v))
  on_entry v hasher shard (vacant e) = (value none, (H.insert shard e.hash (e.key, v) hasher).0)

  -- What a call makes of the table of its shard while it has the lock: the reply, and the table that
  -- it leaves.
  unfoldable pub critical : Call K V → ℕ → ℕ → (K × V → ℕ) → T → Reply K V × T
  unfolding on_entry table_entry search_shard
  critical (get k) idx hash hasher shard = elim (search_shard key H shard hash k) [
    | none ↦ (pair none, shard)
    | some (_, e) ↦ (pair (some e), shard)
  ]
  critical (contains_key k) idx hash hasher shard = elim (search_shard key H shard hash k) [
    | none ↦ (flag false, shard)
    | some _ ↦ (flag true, shard)
  ]
  critical (insert k v) idx hash hasher shard =
      on_entry v hasher shard (table_entry key H shard idx hash k)
  critical (remove k) idx hash hasher shard = elim (search_shard key H shard hash k) [
    | none ↦ (pair none, shard)
    | some (i, e) ↦ (pair (some e), H.remove shard i)
  ]
  critical (remove_if k f) idx hash hasher shard = elim (search_shard key H shard hash k) [
    | none ↦ (pair none, shard)
    | some (i, (k', v)) ↦
        if f k' v then (pair (some (k', v)), H.remove shard i) else (pair none, shard)
  ]
  critical (remove_if_mut k f) idx hash hasher shard = elim (search_shard key H shard hash k) [
    | none ↦ (pair none, shard)
    | some (i, (k', v)) ↦
        let changed = H.write shard i (k', (f k' v).1) in
        if (f k' v).0
        then (pair (some (k', (f k' v).1)), H.remove changed i)
        else (pair none, changed)
  ]
  critical (alter k f) idx hash hasher shard = elim (search_shard key H shard hash k) [
    | none ↦ (nothing, shard)
    | some (i, (k', v)) ↦ (nothing, H.write shard i (k', f k' v))
  ]

  -- the second: the work, and the table that it leaves
  unfoldable pub finish : Call K V → ℕ → T → DashMap T S → Outcome (Reply K V × DashMap T S)
  unfolding critical store hash_u64
  finish c idx shard m = do
    let (r, shard') = critical c idx (hash_u64 key H m (key_of c)) (rehash key H m) shard
    m' ← if is_exclusive c then store idx shard' m else done m
    done (r, m')

  -- the last: the guard goes
  unfoldable pub leave : Call K V → ℕ → DashMap T S → Outcome (DashMap T S)
  unfolding drop_read drop_write
  leave c idx m = if is_exclusive c then drop_write idx m else drop_read idx m

  -- One step of a thread.
  unfoldable pub advance : Thread T K V → DashMap T S → Outcome (Thread T K V × DashMap T S)
  unfolding enter finish leave
  advance (outside [] rs) m = blocked
  advance (outside (c ∷ cs) rs) m = do
    (idx, shard, m') ← enter c m
    done (inside c idx shard cs rs, m')
  advance (inside c idx shard cs rs) m = do
    (r, m') ← finish c idx shard m
    done (leaving c idx cs (r ∷ rs), m')
  advance (leaving c idx cs rs) m = do m' ← leave c idx m; done (outside cs rs, m')

  unfoldable pub step : ℕ → Threads T S K V → Outcome (Threads T S K V)
  unfolding advance
  step i p = elim (get_elem? p.threads i) [
    | none ↦ blocked
    | some w ↦ do
      (w', m') ← advance w p.map
      done (record { map = m'; threads = set p.threads i w' })
  ]

  -- Steps of the threads with these numbers, in this order.
  unfoldable pub run : List ℕ → Threads T S K V → Outcome (Threads T S K V)
  unfolding step
  run [] p = done p
  run (i ∷ turns) p = do p' ← step i p; run turns p'

  -- The threads with one whole call after another: a thread with this number makes its next call.
  unfoldable pub call_next : Thread T K V → DashMap T S → Outcome (Thread T K V × DashMap T S)
  unfolding invoke
  call_next (outside (c ∷ cs) rs) m = do (r, m') ← invoke c m; done (outside cs (r ∷ rs), m')
  call_next _ m = blocked

  unfoldable pub one_by_one : List ℕ → Threads T S K V → Outcome (Threads T S K V)
  unfolding call_next
  one_by_one [] p = done p
  one_by_one (i ∷ turns) p = elim (get_elem? p.threads i) [
    | none ↦ blocked
    | some w ↦ do
      (w', m') ← call_next w p.map
      one_by_one turns (record { map = m'; threads = set p.threads i w' })
  ]
