-- ===== src/Serde/Sets/AsMaps.antt =====
-- A set is written and read as the map with the unit for values is.
use dashmap.Base.{
  ℕ, zero, suc, ◌≤◌, ◌<◌, ◌^◌, ◌≡◌, refl, ◌∙◌, ap, inl, inr, Option, none, some, length, All, total,
}
use dashmap.Base.Outcome.{Outcome, Outcome-cases, done, blocked, panicked, ◌>>=◌}
use dashmap.Key.{Key}
use dashmap.Table.{HashTable}
use dashmap.Map.{DashMap}
use dashmap.Map.State.{IsValid, contents, word, entries}
use dashmap.Map.Loops.{IsReadable}
use dashmap.Map.Iter.{iter, Iter, RefMulti, next, drop_iter}
use dashmap.Map.Entry
use dashmap.Map.Making
use dashmap.Map.Whole.{len}
use dashmap.DashSet as Set
use dashmap.DashSet.{DashSet}
use dashmap.Serde.{
  Result, ok, err, Result-cases, unwrap_or, Serializer, MapAccess, Deserializer, serialize,
  serialize_each, visit_entries, visit_map,
}
use dashmap.Serde.RoundTrip.{Format, reads_back}
use dashmap.Serde.Sets.{
  SeqSerializer, SeqAccess, SeqDeserializer, serialize_set, serialize_members, visit_elements,
  visit_seq, deserialize_set,
}

module _ {ℓ} where
  abbrev pub as_entry : {K A : Type ℓ} → Option (K × A) → Option ((K × Unit {ℓ}) × A)
  as_entry none = none
  as_entry (some (k, a)) = some ((k, tt), a)

  abbrev pub map_ok : {E A B : Type ℓ} → (A → B) → Result E A → Result E B
  map_ok f (ok a) = ok (f a)
  map_ok f (err e) = err e

  abbrev as_set : {A T S : Type ℓ} → Outcome (A × DashMap T S) → Outcome (A × DashSet T S)
  as_set r = r >>= (λ y. done (y.0, record { inner = y.1 }))

module _ {ℓ} {E K : Type ℓ} where
  abbrev pub as_serializer : SeqSerializer E K → Serializer E K (Unit {ℓ})
  as_serializer s = record {
    Map = s.Seq;
    Out = s.Out;
    serialize_map = s.serialize_seq;
    serialize_entry = λ seq k _. s.serialize_element seq k;
    end = s.end;
  }

  abbrev pub as_access : SeqAccess E K → MapAccess E K (Unit {ℓ})
  as_access s = record {
    Access = s.Access;
    size_hint = s.size_hint;
    next_entry = λ a. map_ok as_entry (s.next_element a);
  }

  abbrev pub as_deserializer : {D : Type ℓ} → SeqDeserializer E K D → Deserializer E K (Unit {ℓ}) D
  as_deserializer d = record { access = as_access d.access; deserialize_map = d.deserialize_seq }

module _ {ℓ} {E K S : Type ℓ} (key : Key K S) (H : HashTable (K × Unit {ℓ})) where
  open H use {T, slots}

  serialize_members_lem :
      (serializer : SeqSerializer E K) (n : ℕ) (seq : serializer.Seq) (it : Iter K (Unit {ℓ}))
      (m : DashMap T S)
      → serialize_members key H serializer n seq it (record { inner = m })
        ≡ as_set (serialize_each key H (as_serializer serializer) n seq it m)
  unfolding serialize_members serialize_each Set.next
  serialize_members_lem serializer zero seq it m = refl
  serialize_members_lem serializer (suc n) seq it m = elim (Outcome-cases (next H it m)) [
    | inl ((r, it', m'), run) ↦
        turn r it' m' run (λ seq'. serialize_members_lem serializer n seq' it' m')
    | inr (inl waits) ↦ rw (serialize_members, serialize_each, Set.next, waits, ◌>>=◌)
    | inr (inr panics) ↦ rw (serialize_members, serialize_each, Set.next, panics, ◌>>=◌)
  ]
    where
      dropped :
          (x : Outcome (DashMap T S)) (r : Result E serializer.Out)
          → (x >>= (λ freed. done (r, record { inner = freed })))
            ≡ as_set (x >>= (λ freed. done (r, freed)))
      dropped (done m') r = refl
      dropped blocked r = refl
      dropped panicked r = refl

      turn :
          (r : Option (RefMulti K (Unit {ℓ}))) (it' : Iter K (Unit {ℓ})) (m' : DashMap T S)
          → next H it m ≡ done (r, it', m')
          → ((seq' : serializer.Seq)
              → serialize_members key H serializer n seq' it' (record { inner = m' })
                ≡ as_set (serialize_each key H (as_serializer serializer) n seq' it' m'))
          → serialize_members key H serializer (suc n) seq it (record { inner = m })
            ≡ as_set (serialize_each key H (as_serializer serializer) (suc n) seq it m)
      turn none it' m' run later =
          rw (serialize_members, serialize_each, Set.next, run, ◌>>=◌)
            (dropped (drop_iter H it' m') (serializer.end seq))
      turn (some e) it' m' run later = elim (Result-cases (serializer.serialize_element seq e.k)) [
        | inl (seq', went) ↦
            rw (serialize_members, serialize_each, Set.next, run, ◌>>=◌, went) (later seq')
        | inr (x, stopped) ↦
            rw (serialize_members, serialize_each, Set.next, run, ◌>>=◌, stopped)
              (dropped (drop_iter H it' m') (err x))
      ]

  visit_elements_lem :
      (access : SeqAccess E K) (n : ℕ) (a : access.Access) (m : DashMap T S)
      → visit_elements key H access n a (record { inner = m }) ≡ (
          visit_entries key H (as_access access) n a m
          >>= (λ r. done (map_ok (λ m'. record { inner = m' }) r)))
  unfolding visit_elements visit_entries
  visit_elements_lem access zero a m = refl
  visit_elements_lem access (suc n) a m = elim (Result-cases (access.next_element a)) [
    | inr (x, failed) ↦ rw (visit_elements, visit_entries, failed)
    | inl (none, ended) ↦ rw (visit_elements, visit_entries, ended)
    | inl (some (k, a'), more) ↦ elim (Outcome-cases (Entry.insert key H m k tt)) [
      | inl ((old, m'), run) ↦
          rw (visit_elements, visit_entries, more, Set.insert, run, ◌>>=◌)
            (visit_elements_lem access n a' m')
      | inr (inl waits) ↦ rw (visit_elements, visit_entries, more, Set.insert, waits, ◌>>=◌)
      | inr (inr panics) ↦ rw (visit_elements, visit_entries, more, Set.insert, panics, ◌>>=◌)
    ]
  ]

  serialize_set_lem :
      (serializer : SeqSerializer E K) (m : DashMap T S)
      → serialize_set key H serializer (record { inner = m })
        ≡ as_set (serialize key H (as_serializer serializer) m)
  unfolding serialize_set serialize Set.len
  serialize_set_lem serializer m = elim (Outcome-cases (len key H m)) [
    | inr (inl waits) ↦ rw (waits, ◌>>=◌)
    | inr (inr panics) ↦ rw (panics, ◌>>=◌)
    | inl ((n, m'), run) ↦ elim (Result-cases (serializer.serialize_seq (some n))) [
      | inr (x, refused) ↦ rw (run, ◌>>=◌, refused)
      | inl (seq, begun) ↦
          rw (run, ◌>>=◌, begun)
            (serialize_members_lem serializer
              (suc (total (λ r. length (slots r.data_ptr)) m'.shards)) seq (iter H m') m')
    ]
  ]

  visit_seq_lem :
      (access : SeqAccess E K) (turns : ℕ) (parallelism : Option ℕ) (hasher : S) (a : access.Access)
      → visit_seq key H access turns parallelism hasher a ≡ (
          visit_map key H (as_access access) turns parallelism hasher a
          >>= (λ r. done (map_ok (λ m'. record { inner = m' }) r)))
  unfolding visit_seq visit_map Set.with_capacity_and_hasher
  visit_seq_lem access turns parallelism hasher a =
      elim (Outcome-cases (
        Making.with_capacity_and_hasher key H parallelism (unwrap_or (access.size_hint a) 0)
          hasher)) [
            | inl (m, run) ↦ rw (run, ◌>>=◌) (visit_elements_lem access turns a m)
            | inr (inl waits) ↦ rw (waits, ◌>>=◌)
            | inr (inr panics) ↦ rw (panics, ◌>>=◌)
          ]

  -- A valid set each of whose locks has no writer and room for one more reader, and of at most
  -- 2 ^ 63 members, is written as the sequence of its members and left as it was; reading it back,
  -- in a turn for each member and one more, gives a valid set that nobody holds a lock of and that
  -- has the very same members. The format keeps the elements and their order.
  pub set_round_trip :
      (serializer : SeqSerializer E K) (deserializer : SeqDeserializer E K serializer.Out)
      → Format (as_serializer serializer) (as_deserializer deserializer)
      → (m : DashMap T S) → IsValid key H m
      → All IsReadable m.shards
      → entries key H m ≤ 2 ^ 63
      → (turns parallelism : ℕ) (hasher : S) → entries key H m < turns
      → 1 ≤ parallelism
      → parallelism ≤ 2 ^ 61
      → (d : serializer.Out) × (m' : DashMap T S) × (serialize_set key H serializer
            (record { inner = m })
          ≡ done (ok d, record { inner = m }))
        × (deserialize_set key H deserializer turns (some parallelism) hasher d
            ≡ done (ok (record { inner = m' })))
        × IsValid key H m'
        × ((q : K) → word key H m' q ≡ 0)
        × ((q : K) → contents key H m' q ≡ contents key H m q)
  unfolding deserialize_set
  set_round_trip serializer deserializer format m valid readable small turns parallelism hasher
        enough low high =
      let (d, a, m', wrote, back, visits, valid', free, same) =
        reads_back key H (as_serializer serializer) (as_deserializer deserializer) format m valid
          readable small turns parallelism hasher enough low high in
      (
        d,
        m',
        serialize_set_lem serializer m ∙ ap as_set wrote,
        back (DashSet T S) _
            ∙ visit_seq_lem deserializer.access turns (some parallelism) hasher a
            ∙ ap (λ r. r >>= (λ x. done (map_ok (λ m'. record { inner = m' }) x))) visits,
        valid',
        free,
        same,
      )
