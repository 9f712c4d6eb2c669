-- ===== src/Map/Iter.antt =====
-- src/iter.rs and src/mapref/multiple.rs: the iterators over a map. A reference that `next` of an
-- `Iter` returned is dropped before the next call, so that the guard goes when the iterator leaves
-- the shard.
use dashmap.Base.{ℕ, zero, suc, ◌-◌, Option, none, some, List, [], ◌∷◌, length, map}
use dashmap.Base.Outcome.{Outcome, done, ◌>>=◌}
use dashmap.Table.{HashTable}
use dashmap.Map.{RwLock, DashMap, read, drop_read}

pub record RefMulti {ℓ} (K V : Type ℓ) : Type ℓ where
  pub guard : ℕ
  pub k : K
  pub v : V

-- `current` has the entries of the table of a shard that are still to come.
pub record OwningIter {ℓ} (T K V : Type ℓ) : Type ℓ where
  pub shards : List (RwLock T)
  pub current : Option (List (K × V))

-- `shards` is the number of the next shard; `current` has the shard whose lock is held.
pub record Iter {ℓ} (K V : Type ℓ) : Type ℓ where
  pub shards : ℕ
  pub current : Option (ℕ × List (K × V))

module _ {ℓ} {K V : Type ℓ} (H : HashTable (K × V)) where
  -- the pairs of a table, in the order of its iterators
  abbrev pub pairs : H.T → List (K × V)
  pairs t = map (λ e. e.1) (H.slots t)

module _ {ℓ} {K V S : Type ℓ} (H : HashTable (K × V)) where
  open H use {T, slots}

  -- `into_iter`
  abbrev pub into_iter : DashMap T S → OwningIter T K V
  into_iter m = record { shards = m.shards; current = none }

  abbrev pub iter : DashMap T S → Iter K V
  iter m = record { shards = 0; current = none }

  -- `drop` of the iterator
  unfoldable pub drop_iter : Iter K V → DashMap T S → Outcome (DashMap T S)
  unfolding drop_read
  drop_iter it m = elim it.current [ none ↦ done m | some (i, _) ↦ drop_read i m ]

  -- the loop of `next` from the next shard on, `n` shards before the end
  unfoldable pub next_shard :
      ℕ → Iter K V → DashMap T S → Outcome (Option (RefMulti K V) × Iter K V × DashMap T S)
  unfolding read drop_iter
  next_shard zero it m = done (none, it, m)
  next_shard (suc n) it m = do
    (t, m') ← read m it.shards
    m'' ← drop_iter it m'
    let rest = next_shard n (record { shards = suc it.shards; current = some (it.shards, []) }) m''
    elim (pairs H t) [
      | [] ↦ rest
      | e ∷ es ↦ done (
        some (record { guard = it.shards; k = e.0; v = e.1 }),
        record { shards = suc it.shards; current = some (it.shards, es) },
        m'',
      )
    ]

  -- `Iter::next`
  unfoldable pub next :
      Iter K V → DashMap T S → Outcome (Option (RefMulti K V) × Iter K V × DashMap T S)
  unfolding next_shard
  next it m = elim it.current [
    | none ↦ next_shard (length m.shards - it.shards) it m
    | some (i, []) ↦ next_shard (length m.shards - it.shards) it m
    | some (i, e ∷ es) ↦
        done
          (some (record { guard = i; k = e.0; v = e.1 }), record it { current = some (i, es) }, m)
  ]

  -- What a loop over `&map` sees in `n` turns, with the references dropped turn by turn and the
  -- iterator after the last.
  unfoldable pub collect : ℕ → Iter K V → DashMap T S → Outcome (List (K × V) × DashMap T S)
  unfolding next drop_iter
  collect zero it m = do freed ← drop_iter it m; done ([], freed)
  collect (suc n) it m = do
    (r, it', m') ← next it m
    elim r [
      | none ↦ do freed ← drop_iter it' m'; done ([], freed)
      | some e ↦ do (rest, freed) ← collect n it' m'; done ((e.k, e.v) ∷ rest, freed)
    ]

module _ {ℓ} {K V : Type ℓ} (H : HashTable (K × V)) where
  open H use {T, slots}

  -- the loop of `next` from the next shard on
  unfoldable pub next_owned_shard :
      List (RwLock T) → Option (List (K × V)) → Option (K × V) × OwningIter T K V
  next_owned_shard [] current = (none, record { shards = []; current = current })
  next_owned_shard (s ∷ ss) current =
      let rest = next_owned_shard ss (some []) in
      elim (pairs H s.data_ptr) [
        | [] ↦ rest
        | e ∷ es ↦ (some e, record { shards = ss; current = some es })
      ]

  -- `OwningIter::next`
  unfoldable pub next_owned : OwningIter T K V → Option (K × V) × OwningIter T K V
  unfolding next_owned_shard
  next_owned it = elim it.current [
    | none ↦ next_owned_shard it.shards it.current
    | some [] ↦ next_owned_shard it.shards it.current
    | some (e ∷ es) ↦ (some e, record it { current = some es })
  ]

  -- What the iterator yields in `n` calls of `next`, up to the first `None`.
  unfoldable pub collect_owned : ℕ → OwningIter T K V → List (K × V)
  unfolding next_owned
  collect_owned zero it = []
  collect_owned (suc n) it =
      let rest = collect_owned n (next_owned it).1 in
      elim (next_owned it).0 [ none ↦ [] | some e ↦ e ∷ rest ]
