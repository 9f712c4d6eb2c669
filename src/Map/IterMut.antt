-- ===== src/Map/IterMut.antt =====
-- src/iter.rs and src/mapref/multiple.rs: the iterator that lends entries for writes, and
-- `alter_all` of src/lib.rs, which goes through it. A reference that `next` returned is dropped
-- before the next call.
use dashmap.Base.{ℕ, zero, suc, ◌-◌, Option, none, some, length, get_elem?, total}
use dashmap.Base.Outcome.{Outcome, done, ◌>>=◌}
use dashmap.Table.{HashTable}
use dashmap.Map.{DashMap, shard_at, write, drop_write, store}

pub record RefMutMulti {ℓ} (K V : Type ℓ) : Type ℓ where
  pub guard : ℕ
  pub pos : ℕ
  pub k : K
  pub v : V

-- `shards` is the number of the next shard; `current` has the shard whose lock is held, and the
-- position of its next entry.
pub record IterMut : Type 0 where
  pub shards : ℕ
  pub current : Option (ℕ × ℕ)

-- `iter_mut`
abbrev pub iter_mut : IterMut
iter_mut = record { shards = 0; current = none }

module _ {ℓ} {K V S : Type ℓ} (H : HashTable (K × V)) where
  open H use {T, slots}

  -- `drop` of the iterator
  unfoldable pub drop_iter_mut : IterMut → DashMap T S → Outcome (DashMap T S)
  unfolding drop_write
  drop_iter_mut it m = elim it.current [ none ↦ done m | some (j, _) ↦ drop_write j m ]

  -- the loop of `next` from the next shard on, `n` shards before the end
  unfoldable pub next_mut_shard :
      ℕ → IterMut → DashMap T S → Outcome (Option (RefMutMulti K V) × IterMut × DashMap T S)
  unfolding write drop_iter_mut
  next_mut_shard zero it m = done (none, it, m)
  next_mut_shard (suc n) it m = do
    (t, m') ← write m it.shards
    m'' ← drop_iter_mut it m'
    let rest =
        next_mut_shard n (record { shards = suc it.shards; current = some (it.shards, 0) }) m''
    elim (get_elem? (slots t) 0) [
      | none ↦ rest
      | some (_, (k, v)) ↦ done (
        some (record { guard = it.shards; pos = 0; k = k; v = v }),
        record { shards = suc it.shards; current = some (it.shards, 1) },
        m'',
      )
    ]

  -- `IterMut::next`
  unfoldable pub next_mut :
      IterMut → DashMap T S → Outcome (Option (RefMutMulti K V) × IterMut × DashMap T S)
  unfolding shard_at next_mut_shard
  next_mut it m = elim it.current [
    | none ↦ next_mut_shard (length m.shards - it.shards) it m
    | some (j, p) ↦ do
      s ← shard_at m j
      elim (get_elem? (slots s.data_ptr) p) [
        | none ↦ next_mut_shard (length m.shards - it.shards) it m
        | some (_, (k, v)) ↦ done (
          some (record { guard = j; pos = p; k = k; v = v }),
          record it { current = some (j, suc p) },
          m,
        )
      ]
  ]

  -- `*value_mut() = v`
  unfoldable pub set_multi : RefMutMulti K V → V → DashMap T S → Outcome (DashMap T S)
  unfolding shard_at store
  set_multi r v m = do s ← shard_at m r.guard; store r.guard (H.write s.data_ptr r.pos (r.k, v)) m

  -- The loop of `alter_all`, up to `n` turns, and the drop of the iterator after it.
  unfoldable pub alter_all_from : ℕ → IterMut → (K → V → V) → DashMap T S → Outcome (DashMap T S)
  unfolding next_mut set_multi drop_iter_mut
  alter_all_from zero it f m = drop_iter_mut it m
  alter_all_from (suc n) it f m = do
    (r, it', m') ← next_mut it m
    elim r [
      | none ↦ drop_iter_mut it' m'
      | some e ↦ do m'' ← set_multi e (f e.k e.v) m'; alter_all_from n it' f m''
    ]

  -- A turn for each entry, and one to find the end.
  unfoldable pub alter_all : DashMap T S → (K → V → V) → Outcome (DashMap T S)
  unfolding alter_all_from
  alter_all m f =
      alter_all_from (suc (total (λ s. length (slots s.data_ptr)) m.shards)) iter_mut f m
