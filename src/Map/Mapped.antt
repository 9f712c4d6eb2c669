-- ===== src/Map/Mapped.antt =====
-- src/mapref/one.rs: references to a part of a value. A part is given by a lens: what it is, and the
-- value with another part in its place.
use dashmap.Base.{ℕ, Option, none, some, ◌⊎◌, inl, inr}
use dashmap.Base.Outcome.{Outcome, done, ◌>>=◌}
use dashmap.Table.{HashTable}
use dashmap.Map.{DashMap, Ref, RefMut, shard_at, store}

pub record Part {ℓ} (V P : Type ℓ) : Type ℓ where
  pub part : P
  pub whole : P → V

pub record MappedRef {ℓ} (K P : Type ℓ) : Type ℓ where
  pub guard : ℕ
  pub k : K
  pub v : P

-- `whole` is the value of the entry around the part.
pub record MappedRefMut {ℓ} (K V P : Type ℓ) : Type ℓ where
  pub guard : ℕ
  pub pos : ℕ
  pub k : K
  pub v : P
  pub whole : P → V

module _ {ℓ} {K V P : Type ℓ} where
  -- `Ref::map` and `Ref::try_map`
  abbrev pub map_ref : Ref K V → (V → P) → MappedRef K P
  map_ref r f = record { guard = r.guard; k = r.k; v = f r.v }

  unfoldable pub try_map_ref : Ref K V → (V → Option P) → MappedRef K P ⊎ Ref K V
  try_map_ref r f = elim (f r.v) [
    | none ↦ inr r
    | some v ↦ inl (record { guard = r.guard; k = r.k; v = v })
  ]

  -- `RefMut::map` and `RefMut::try_map`
  abbrev pub map_ref_mut : RefMut K V → (V → Part V P) → MappedRefMut K V P
  map_ref_mut r f = record {
    guard = r.guard;
    pos = r.pos;
    k = r.k;
    v = (f r.v).part;
    whole = (f r.v).whole;
  }

  unfoldable pub try_map_ref_mut :
      RefMut K V → (V → Option (Part V P)) → MappedRefMut K V P ⊎ RefMut K V
  try_map_ref_mut r f = elim (f r.v) [
    | none ↦ inr r
    | some p ↦ inl (record { guard = r.guard; pos = r.pos; k = r.k; v = p.part; whole = p.whole })
  ]

module _ {ℓ} {K P Q : Type ℓ} where
  -- `MappedRef::map` and `MappedRef::try_map`
  abbrev pub map_mapped : MappedRef K P → (P → Q) → MappedRef K Q
  map_mapped r f = record { guard = r.guard; k = r.k; v = f r.v }

  unfoldable pub try_map_mapped : MappedRef K P → (P → Option Q) → MappedRef K Q ⊎ MappedRef K P
  try_map_mapped r f = elim (f r.v) [
    | none ↦ inr r
    | some v ↦ inl (record { guard = r.guard; k = r.k; v = v })
  ]

module _ {ℓ} {K V P Q : Type ℓ} where
  -- `MappedRefMut::map` and `MappedRefMut::try_map`
  abbrev pub map_mapped_mut : MappedRefMut K V P → (P → Part P Q) → MappedRefMut K V Q
  map_mapped_mut r f = record {
    guard = r.guard;
    pos = r.pos;
    k = r.k;
    v = (f r.v).part;
    whole = λ q. r.whole ((f r.v).whole q);
  }

  unfoldable pub try_map_mapped_mut :
      MappedRefMut K V P → (P → Option (Part P Q)) → MappedRefMut K V Q ⊎ MappedRefMut K V P
  try_map_mapped_mut r f = elim (f r.v) [
    | none ↦ inr r
    | some p ↦ inl (record {
      guard = r.guard;
      pos = r.pos;
      k = r.k;
      v = p.part;
      whole = λ q. r.whole (p.whole q);
    })
  ]

module _ {ℓ} {K V P S : Type ℓ} (H : HashTable (K × V)) where
  open H use {T, slots}

  -- `*value_mut() = v`
  unfoldable pub set_part :
      MappedRefMut K V P → P → DashMap T S → Outcome (MappedRefMut K V P × DashMap T S)
  unfolding shard_at store
  set_part r v m = do
    s ← shard_at m r.guard
    m' ← store r.guard (H.write s.data_ptr r.pos (r.k, r.whole v)) m
    done (record r { v = v }, m')
