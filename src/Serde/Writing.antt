-- ===== src/Serde/Writing.antt =====
-- What `serialize` writes, and what it leaves of the map.
use dashmap.Base.{
  ℕ, zero, suc, ◌<◌, ◌^◌, ◌≡◌, refl, inl, inr, ap, Option, none, some, List, [], ◌∷◌, length, All,
  arith,
}
use mathlib.Core.Option
use dashmap.Base.Outcome.{done, ◌>>=◌}
use dashmap.Key.{Key}
use dashmap.Table.{HashTable}
use dashmap.Map.{DashMap}
use dashmap.Map.State.{IsValid, entries}
use dashmap.Map.Loops.{IsReadable}
use dashmap.Map.Sizes.{len_lem}
use dashmap.Map.Iter.{Iter, RefMulti, iter, next}
use dashmap.Map.Owning.{head, tail}
use dashmap.Map.Pairs.{all_pairs, all_pairs-Lists, Lists}
use dashmap.Map.Visiting.{no_head, head-tail}
use dashmap.Map.Visiting.Calls.{At, to_come, drop_iter_lem, next_lem}
use dashmap.Serde.{Result, ok, Result-cases, and_then, Serializer, serialize, serialize_each}

module _ {ℓ} {E K V : Type ℓ} (serializer : Serializer E K V) where
  open serializer use {Map, Out}

  -- the pairs of a list, written one after another up to the first error
  unfoldable pub write_entries : Map → List (K × V) → Result E Map
  write_entries map [] = ok map
  write_entries map (e ∷ es) =
      and_then (serializer.serialize_entry map e.0 e.1) (λ map'. write_entries map' es)

  -- a whole document
  unfoldable pub write_all : List (K × V) → Result E Out
  unfolding write_entries
  write_all es =
      and_then (serializer.serialize_map (some (length es)))
        (λ map. and_then (write_entries map es) serializer.end)

module _ {ℓ} {E K V S : Type ℓ} (key : Key K S) (H : HashTable (K × V))
    (serializer : Serializer E K V) where
  open H use {T, slots}
  open serializer use {Map, Out}

  module _ (m : DashMap T S) (readable : All IsReadable m.shards) where
    serialize_each_lem :
        (n : ℕ) (map : Map) (it : Iter K V) (m' : DashMap T S)
        → At H m readable it m'
        → length (to_come H m readable it) < n
        → serialize_each key H serializer n map it m'
          ≡ done
              (and_then (write_entries serializer map (to_come H m readable it)) serializer.end, m)
    unfolding serialize_each write_entries
    serialize_each_lem zero map it m' at small = absurd (omega arith)
    serialize_each_lem (suc n) map it m' at small =
        let x = next_lem H m readable it m' at in
        turn map x.r x.it' x.m'' x.runs x.at x.first x.others (serialize_each_lem n)
      where
        turn :
            (map : Map) (r : Option (RefMulti K V)) (it' : Iter K V) (m'' : DashMap T S)
            → next H it m' ≡ done (r, it', m'')
            → At H m readable it' m''
            → Option.map (λ e. (e.k, e.v)) r ≡ head (to_come H m readable it)
            → to_come H m readable it' ≡ tail (to_come H m readable it)
            → ((map : Map) (it : Iter K V) (m' : DashMap T S)
                → At H m readable it m'
                → length (to_come H m readable it) < n
                → serialize_each key H serializer n map it m'
                  ≡ done (
                    and_then
                        (write_entries serializer map (to_come H m readable it))
                        serializer.end,
                    m,
                  ))
            → serialize_each key H serializer (suc n) map it m'
              ≡ done (
                and_then (write_entries serializer map (to_come H m readable it)) serializer.end,
                m,
              )
        turn map none it' m'' run at' first others later = rw (
          serialize_each,
          run,
          ◌>>=◌,
          drop_iter_lem H m readable it' m'' at',
          no_head (to_come H m readable it) first,
        )
        turn map (some e) it' m'' run at' first others later =
            let all =
              head-tail (to_come H m readable it) (to_come H m readable it') (e.k, e.v) first
                others in
            let fewer : length (to_come H m readable it') < n = omega (arith, ap length all) in
            elim (Result-cases (serializer.serialize_entry map e.k e.v)) [
              | inl (map', went) ↦
                  rw (serialize_each, run, ◌>>=◌, went, later map' it' m'' at' fewer, all, went)
              | inr (x, stopped) ↦ rw (
                serialize_each,
                run,
                ◌>>=◌,
                stopped,
                drop_iter_lem H m readable it' m'' at',
                all,
                stopped,
              )
            ]

  -- `serialize` of a valid map each of whose locks has no writer and room for one more reader, and
  -- with a number of entries that fits a word, announces that number and writes the pairs that the
  -- map holds, each once and no other. It gives the document, or the first error of the
  -- serializer, and on both it leaves the map and its locks as they were.
  pub serialize_lem :
      (m : DashMap T S)
      → IsValid key H m
      → All IsReadable m.shards
      → entries key H m < 2 ^ 64
      → (xs : List (K × V)) × Lists key H m xs
        × (serialize key H serializer m ≡ done (write_all serializer xs, m))
  unfolding serialize write_all entries
  serialize_lem m valid readable small =
      let lists = all_pairs-Lists key H m valid in
      let xs = all_pairs H m.shards in
      (
        xs,
        lists,
        elim (Result-cases (serializer.serialize_map (some (entries key H m)))) [
          | inr (x, refused) ↦
              rw (len_lem key H m readable small, ◌>>=◌, refused, lists.many, refused)
          | inl (map, begun) ↦
              rw (len_lem key H m readable small, ◌>>=◌, begun, lists.many, begun)
                (serialize_each_lem m readable (suc (entries key H m)) map (iter H m) m
                  (record { holds = refl; within = omega arith }) (omega (arith, lists.many)))
        ],
      )
