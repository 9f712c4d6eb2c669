-- ===== src/Serde/RoundTrip.antt =====
-- A map that is written and read back.
use dashmap.Base.{
  ℕ, ◌≤◌, ◌<◌, ◌^◌, ◌≡◌, refl, ◌∙◌, ap, Option, none, some, List, length, All, arith,
}
use dashmap.Base.Outcome.{Outcome, done}
use dashmap.Key.{Key}
use dashmap.Table.{HashTable}
use dashmap.Map.{DashMap}
use dashmap.Map.State.{IsValid, contents, word, entries}
use dashmap.Map.Loops.{IsReadable}
use dashmap.Map.Pairs.{find_pair}
use dashmap.Map.Distinct.{inserted_once, placed, found-le}
use dashmap.Serde.{
  Result, ok, unwrap_or, Serializer, Deserializer, serialize, deserialize, visit_map,
}
use dashmap.Serde.Writing.{write_all, serialize_lem}
use dashmap.Serde.Reading.{Gives, visit_map_lem}

-- A format: what its serializer writes for a list of entries, its deserializer gives back in the
-- same order, with a size hint that is not above their number.
pub record Format {ℓ} {E K V : Type ℓ} (serializer : Serializer E K V)
    (deserializer : Deserializer E K V serializer.Out) : Type (ℓ + 1) where
  pub Encodes : serializer.Out → List (K × V) → Type ℓ
  pub writes :
      (es : List (K × V)) → (d : serializer.Out) × (write_all serializer es ≡ ok d) × Encodes d es
  pub reads :
      (d : serializer.Out) (es : List (K × V))
      → Encodes d es
      → (a : deserializer.access.Access) × Gives deserializer.access a es none
        × (unwrap_or (deserializer.access.size_hint a) 0 ≤ length es)
        × ((M : Type ℓ) (visit : deserializer.access.Access → Outcome (Result E M))
            → deserializer.deserialize_map M visit d ≡ visit a)

module _ {ℓ} {E K V S : Type ℓ} (key : Key K S) (H : HashTable (K × V))
    (serializer : Serializer E K V) (deserializer : Deserializer E K V serializer.Out)
    (format : Format serializer deserializer) where
  open H use {T, slots}

  placed-none : (x : Option (K × V)) → placed key none x ≡ x
  placed-none none = refl
  placed-none (some e) = refl

  -- the parts of a round trip, with the access that the document is read through
  pub reads_back :
      (m : DashMap T S)
      → IsValid key H m
      → All IsReadable m.shards
      → entries key H m ≤ 2 ^ 63
      → (turns parallelism : ℕ) (hasher : S) → entries key H m < turns
      → 1 ≤ parallelism
      → parallelism ≤ 2 ^ 61
      → (d : serializer.Out) × (a : deserializer.access.Access) × (m' : DashMap T S) × (serialize
            key H serializer m
          ≡ done (ok d, m))
        × ((M : Type ℓ) (visit : deserializer.access.Access → Outcome (Result E M))
            → deserializer.deserialize_map M visit d ≡ visit a)
        × (visit_map key H deserializer.access turns (some parallelism) hasher a ≡ done (ok m'))
        × IsValid key H m'
        × ((q : K) → word key H m' q ≡ 0)
        × ((q : K) → contents key H m' q ≡ contents key H m q)
  reads_back m valid readable small turns parallelism hasher enough low high =
      let (xs, lists, run) = serialize_lem key H serializer m valid readable (omega arith) in
      let (d, wrote, encodes) = format.writes xs in
      let (a, gives, hint, back) = format.reads d xs encodes in
      let (m', visits, holds) =
        visit_map_lem key H deserializer.access turns parallelism hasher a low high
          (omega (arith, lists.many)) gives (omega (arith, lists.many)) in
      (
        d,
        a,
        m',
        run ∙ ap (λ r. done (r, m)) wrote,
        back,
        visits,
        holds.valid,
        holds.free,
        λ q.
            holds.reads q
            ∙ inserted_once key q none xs
                (omega (arith, lists.once q, found-le (contents key H m q)))
            ∙ placed-none (find_pair key q xs)
            ∙ lists.finds q,
      )

  -- A valid map each of whose locks has no writer and room for one more reader, and of at most
  -- 2 ^ 63 entries, is written by `serialize`, which leaves it as it was; `deserialize` reads the
  -- document, in a turn for each entry and one more, and gives a valid map that nobody holds a
  -- lock of and that holds under each key the very pair that the first map holds. The format keeps
  -- the entries and their order; the hasher and the number of shards may be others.
  pub round_trip :
      (m : DashMap T S)
      → IsValid key H m
      → All IsReadable m.shards
      → entries key H m ≤ 2 ^ 63
      → (turns parallelism : ℕ) (hasher : S) → entries key H m < turns
      → 1 ≤ parallelism
      → parallelism ≤ 2 ^ 61
      → (d : serializer.Out) × (m' : DashMap T S) × (serialize key H serializer m ≡ done (ok d, m))
        × (deserialize key H deserializer turns (some parallelism) hasher d ≡ done (ok m'))
        × IsValid key H m'
        × ((q : K) → word key H m' q ≡ 0)
        × ((q : K) → contents key H m' q ≡ contents key H m q)
  unfolding deserialize
  round_trip m valid readable small turns parallelism hasher enough low high =
      let (d, a, m', wrote, back, visits, valid', free, same) =
        reads_back m valid readable small turns parallelism hasher enough low high in
      (d, m', wrote, back (DashMap T S) _ ∙ visits, valid', free, same)
