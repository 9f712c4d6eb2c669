-- ===== src/Serde/Sets.antt =====
-- src/serde.rs: sets, which are written and read as sequences of keys.
pub mod AsMaps
use dashmap.Base.{ℕ, zero, suc, Option, none, some, total, length}
use dashmap.Base.Outcome.{Outcome, done, blocked, ◌>>=◌}
use dashmap.Key.{Key}
use dashmap.Table.{HashTable}
use dashmap.Map.Iter.{Iter, iter, drop_iter}
use dashmap.DashSet as Set
use dashmap.DashSet.{DashSet, key_of_multi}
use dashmap.Serde.{Result, ok, err, unwrap_or}

-- `Serializer`, with its `SerializeSeq`
pub record SeqSerializer {ℓ} (E K : Type ℓ) : Type (ℓ + 1) where
  pub Seq : Type ℓ
  pub Out : Type ℓ
  pub serialize_seq : Option ℕ → Result E Seq
  pub serialize_element : Seq → K → Result E Seq
  pub end : Seq → Result E Out

pub record SeqAccess {ℓ} (E K : Type ℓ) : Type (ℓ + 1) where
  pub Access : Type ℓ
  pub size_hint : Access → Option ℕ
  pub next_element : Access → Result E (Option (K × Access))

pub record SeqDeserializer {ℓ} (E K D : Type ℓ) : Type (ℓ + 1) where
  pub access : SeqAccess E K
  pub deserialize_seq :
      (M : Type ℓ) → (access.Access → Outcome (Result E M)) → D → Outcome (Result E M)

module _ {ℓ} {E K S : Type ℓ} (key : Key K S) (H : HashTable (K × Unit {ℓ})) where
  open H use {T, slots}

  module _ (serializer : SeqSerializer E K) where
    open serializer use {Seq, Out}

    -- the loop over `self.iter()`, up to `n` turns
    unfoldable pub serialize_members :
        ℕ → Seq → Iter K (Unit {ℓ}) → DashSet T S → Outcome (Result E Out × DashSet T S)
    unfolding Set.next drop_iter
    serialize_members zero seq it s = blocked
    serialize_members (suc n) seq it s = do
      (ref_multi, it', s') ← Set.next key H it s
      elim ref_multi [
        | none ↦ do
          freed ← drop_iter H it' s'.inner
          done (serializer.end seq, record { inner = freed })
        | some r ↦ elim (serializer.serialize_element seq (key_of_multi r)) [
          | ok seq' ↦ serialize_members n seq' it' s'
          | err e ↦ do freed ← drop_iter H it' s'.inner; done (err e, record { inner = freed })
        ]
      ]

    -- A turn for each member, and one to find the end.
    unfoldable pub serialize_set : DashSet T S → Outcome (Result E Out × DashSet T S)
    unfolding Set.len serialize_members
    serialize_set s = do
      (n, s') ← Set.len key H s
      elim (serializer.serialize_seq (some n)) [
        | ok seq ↦
            serialize_members (suc (total (λ r. length (slots r.data_ptr)) s'.inner.shards)) seq
              (iter H s'.inner) s'
        | err e ↦ done (err e, s')
      ]

  module _ (access : SeqAccess E K) where
    open access use {Access}

    -- the `while let` of `visit_seq`, up to `n` turns
    unfoldable pub visit_elements : ℕ → Access → DashSet T S → Outcome (Result E (DashSet T S))
    unfolding Set.insert
    visit_elements zero a s = blocked
    visit_elements (suc n) a s = elim (access.next_element a) [
      | err e ↦ done (err e)
      | ok r ↦ elim r [
        | none ↦ done (ok s)
        | some (k, a') ↦ do (_, s') ← Set.insert key H s k; visit_elements n a' s'
      ]
    ]

    -- `DashSetVisitor::visit_seq`
    unfoldable pub visit_seq : ℕ → Option ℕ → S → Access → Outcome (Result E (DashSet T S))
    unfolding Set.with_capacity_and_hasher visit_elements
    visit_seq turns parallelism default_hasher a = do
      s ←
          Set.with_capacity_and_hasher key H parallelism (unwrap_or (access.size_hint a) 0)
            default_hasher
      visit_elements turns a s

  unfoldable pub deserialize_set :
      {D : Type ℓ} → SeqDeserializer E K D → ℕ → Option ℕ → S → D → Outcome (Result E (DashSet T S))
  unfolding visit_seq
  deserialize_set deserializer turns parallelism default_hasher d =
      deserializer.deserialize_seq (DashSet T S)
        (visit_seq deserializer.access turns parallelism default_hasher) d
