-- ===== src/Serde.antt =====
-- src/serde.rs: maps and sets written by a `serde::Serializer` and read from a `serde::Deserializer`.
-- serde is not part of the repository: its traits are the records here. A loop takes the number of
-- its turns; one that has had them all has not returned.
pub mod Writing
pub mod Reading
pub mod RoundTrip
pub mod Sets
use dashmap.Base.{ℕ, zero, suc, Option, none, some, ◌≡◌, refl, ◌⊎◌, inl, inr, length, total}
use dashmap.Base.Outcome.{Outcome, done, blocked, ◌>>=◌}
use dashmap.Key.{Key}
use dashmap.Table.{HashTable}
use dashmap.Map.{DashMap}
use dashmap.Map.Entry.{insert}
use dashmap.Map.Iter.{Iter, iter, next, drop_iter}
use dashmap.Map.Making.{with_capacity_and_hasher}
use dashmap.Map.Whole.{len}

pub data Result {ℓ} (E A : Type ℓ) : Type ℓ where
  ok : A → Result E A
  err : E → Result E A

-- `?`
abbrev pub and_then {ℓ} : {E A B : Type ℓ} → Result E A → (A → Result E B) → Result E B
and_then (ok a) f = f a
and_then (err e) f = err e

pub Result-cases {ℓ} :
    {E A : Type ℓ} (r : Result E A) → ((a : A) × (r ≡ ok a)) ⊎ ((e : E) × (r ≡ err e))
Result-cases (ok a) = inl (a, refl)
Result-cases (err e) = inr (e, refl)

-- `unwrap_or`
abbrev pub unwrap_or {ℓ} : {A : Type ℓ} → Option A → A → A
unwrap_or none a = a
unwrap_or (some x) a = x

-- `Serializer`, with its `SerializeMap`: what has been written so far
pub record Serializer {ℓ} (E K V : Type ℓ) : Type (ℓ + 1) where
  pub Map : Type ℓ
  pub Out : Type ℓ
  pub serialize_map : Option ℕ → Result E Map
  pub serialize_entry : Map → K → V → Result E Map
  pub end : Map → Result E Out

-- `MapAccess`: what is still to be read
pub record MapAccess {ℓ} (E K V : Type ℓ) : Type (ℓ + 1) where
  pub Access : Type ℓ
  pub size_hint : Access → Option ℕ
  pub next_entry : Access → Result E (Option ((K × V) × Access))

-- `Deserializer`, of documents of type `D`: `deserialize_map` hands the visitor an access
pub record Deserializer {ℓ} (E K V D : Type ℓ) : Type (ℓ + 1) where
  pub access : MapAccess E K V
  pub deserialize_map :
      (M : Type ℓ) → (access.Access → Outcome (Result E M)) → D → Outcome (Result E M)

module _ {ℓ} {E K V S : Type ℓ} (key : Key K S) (H : HashTable (K × V)) where
  open H use {T, slots}

  module _ (serializer : Serializer E K V) where
    open serializer use {Map, Out}

    -- The loop over `self.iter()`, up to `n` turns. An error leaves the loop, which drops the
    -- iterator.
    unfoldable pub serialize_each :
        ℕ → Map → Iter K V → DashMap T S → Outcome (Result E Out × DashMap T S)
    unfolding next drop_iter
    serialize_each zero map it m = blocked
    serialize_each (suc n) map it m = do
      (ref_multi, it', m') ← next H it m
      elim ref_multi [
        | none ↦ do freed ← drop_iter H it' m'; done (serializer.end map, freed)
        | some r ↦ elim (serializer.serialize_entry map r.k r.v) [
          | ok map' ↦ serialize_each n map' it' m'
          | err e ↦ do freed ← drop_iter H it' m'; done (err e, freed)
        ]
      ]

    -- A turn for each entry, and one to find the end.
    unfoldable pub serialize : DashMap T S → Outcome (Result E Out × DashMap T S)
    unfolding len serialize_each
    serialize m = do
      (n, m') ← len key H m
      elim (serializer.serialize_map (some n)) [
        | ok map ↦
            serialize_each (suc (total (λ s. length (slots s.data_ptr)) m'.shards)) map (iter H m')
              m'
        | err e ↦ done (err e, m')
      ]

  module _ (access : MapAccess E K V) where
    open access use {Access}

    -- the `while let` of `visit_map`, up to `n` turns
    unfoldable pub visit_entries : ℕ → Access → DashMap T S → Outcome (Result E (DashMap T S))
    unfolding insert
    visit_entries zero a m = blocked
    visit_entries (suc n) a m = elim (access.next_entry a) [
      | err e ↦ done (err e)
      | ok r ↦ elim r [
        | none ↦ done (ok m)
        | some (e, a') ↦ do (_, m') ← insert key H m e.0 e.1; visit_entries n a' m'
      ]
    ]

    -- `DashMapVisitor::visit_map`
    unfoldable pub visit_map : ℕ → Option ℕ → S → Access → Outcome (Result E (DashMap T S))
    unfolding with_capacity_and_hasher visit_entries
    visit_map turns parallelism default_hasher a = do
      m ←
          with_capacity_and_hasher key H parallelism (unwrap_or (access.size_hint a) 0)
            default_hasher
      visit_entries turns a m

  unfoldable pub deserialize :
      {D : Type ℓ} → Deserializer E K V D → ℕ → Option ℕ → S → D → Outcome (Result E (DashMap T S))
  unfolding visit_map
  deserialize deserializer turns parallelism default_hasher d =
      deserializer.deserialize_map (DashMap T S)
        (visit_map deserializer.access turns parallelism default_hasher) d
