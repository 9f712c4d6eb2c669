-- ===== src/Tests/SerdeRuns.antt =====
-- Maps and sets written to a list and read back, with a serializer that takes no value above 15 and
-- an access that breaks off.
use dashmap.Base.{
  ℕ, ◌≤◌, ◌≡◌, refl, sym, ◌∙◌, ap, map, Option, none, some, List, [], ◌∷◌, ◌++◌, All, length, ltb,
  if◌then◌else◌, total, arith,
}
use mathlib.Core.List.{append_assoc, append-nil}
use dashmap.Base.Outcome.{done}
use dashmap.Lock.Quiet.{IsQuiet}
use dashmap.Map.{DashMap}
use dashmap.Map.State.{IsValid, contents, word, entries}
use dashmap.Map.Loops.{IsReadable}
use dashmap.Map.Pairs.{Lists}
use dashmap.Serde.{
  Result, ok, err, Serializer, MapAccess, Deserializer, serialize, deserialize, visit_map,
}
use dashmap.Serde.Writing.{write_all, write_entries, serialize_lem}
use dashmap.Map.Building.{Holds}
use dashmap.Serde.Reading.{Gives, ended, failed, another, result, visit_map_lem}
use dashmap.Serde.RoundTrip.{Format, round_trip}
use dashmap.Serde.Sets.{SeqSerializer, SeqDeserializer, serialize_set, deserialize_set}
use dashmap.Serde.Sets.AsMaps.{as_serializer, as_deserializer, set_round_trip}
use dashmap.Tests.World.{numbers, table, world, world-IsValid}

abbrev Numbers : Type 0
Numbers = DashMap (ℕ × List (ℕ × (ℕ × ℕ))) ℕ

free_word : IsQuiet 0
free_word = record { fits = omega arith; no_flags = refl }

a_reader : IsQuiet 4
a_reader = record { fits = omega arith; no_flags = refl }

abbrev in_use : {V : Type 0} → V → V → DashMap (ℕ × List (ℕ × (ℕ × V))) ℕ
in_use v w = world 0 4 v w

in_use_ok : {V : Type 0} (v w : V) → IsValid numbers table (in_use v w)
in_use_ok v w = world-IsValid 0 4 v w free_word a_reader

readable : {V : Type 0} (v w : V) → All IsReadable (in_use v w).shards
readable v w = (
  record { quiet = free_word; room = omega arith },
  (record { quiet = a_reader; room = omega arith }, tt),
)

-- sequences of keys
abbrev to_list : SeqSerializer ℕ ℕ
to_list = record {
  Seq = List ℕ;
  Out = List ℕ;
  serialize_seq = λ n. ok [];
  serialize_element = λ seq k. ok (seq ++ k ∷ []);
  end = ok;
}

abbrev next_of : {A : Type 0} → List A → Result ℕ (Option (A × List A))
next_of [] = ok none
next_of (e ∷ es) = ok (some (e, es))

abbrev of_list : SeqDeserializer ℕ ℕ (List ℕ)
of_list = record {
  access = record { Access = List ℕ; size_hint = λ a. some (length a); next_element = next_of };
  deserialize_seq = λ M visit d. visit d;
}

-- maps as lists of entries
abbrev to_entries : Serializer ℕ ℕ ℕ
to_entries = record {
  Map = List (ℕ × ℕ);
  Out = List (ℕ × ℕ);
  serialize_map = λ n. ok [];
  serialize_entry = λ map k v. ok (map ++ (k, v) ∷ []);
  end = ok;
}

abbrev of_entries : Deserializer ℕ ℕ ℕ (List (ℕ × ℕ))
of_entries = record {
  access = record { Access = List (ℕ × ℕ); size_hint = λ a. some (length a); next_entry = next_of };
  deserialize_map = λ M visit d. visit d;
}

wrote : (map es : List (ℕ × ℕ)) → write_entries to_entries map es ≡ ok (map ++ es)
unfolding write_entries
wrote map [] = ap ok (sym (append-nil map))
wrote map (e ∷ es) = wrote (map ++ e ∷ []) es ∙ ap ok (append_assoc map (e ∷ []) es)

wrote_all : (es : List (ℕ × ℕ)) → write_all to_entries es ≡ ok es
unfolding write_all
wrote_all es = rw (wrote [] es)

gives_all : (es : List (ℕ × ℕ)) → Gives of_entries.access es es none
gives_all [] = ended refl
gives_all (e ∷ es) = another refl (gives_all es)

abbrev entry_list : Format to_entries of_entries
entry_list = record {
  Encodes = λ d es. d ≡ es;
  writes = λ es. (es, wrote_all es, refl);
  reads = λ d es same. (es, gives_all es, omega arith, λ M visit. ap visit same);
}

round_trip_example :
    (d : List (ℕ × ℕ)) × (m' : Numbers) × (serialize numbers table to_entries (in_use 20 10)
      ≡ done (ok d, in_use 20 10))
    × (deserialize numbers table of_entries 3 (some 2) 7 d ≡ done (ok m'))
    × IsValid numbers table m'
    × ((q : ℕ) → word numbers table m' q ≡ 0)
    × ((q : ℕ) → contents numbers table m' q ≡ contents numbers table (in_use 20 10) q)
unfolding entries total
round_trip_example =
    round_trip numbers table to_entries of_entries entry_list (in_use 20 10) (in_use_ok 20 10)
      (readable 20 10) (omega arith) 3 2 7 (omega arith) (omega arith) (omega arith)

-- 20 is refused.
abbrev small_only : Serializer ℕ ℕ ℕ
small_only = record {
  Map = List (ℕ × ℕ);
  Out = List (ℕ × ℕ);
  serialize_map = λ n. ok [];
  serialize_entry = λ map k v. if ltb 15 v then err v else ok (map ++ (k, v) ∷ []);
  end = ok;
}

serialize_lem_example :
    (xs : List (ℕ × ℕ)) × Lists numbers table (in_use 20 10) xs
    × (serialize numbers table small_only (in_use 20 10)
        ≡ done (write_all small_only xs, in_use 20 10))
unfolding entries total
serialize_lem_example =
    serialize_lem numbers table small_only (in_use 20 10) (in_use_ok 20 10) (readable 20 10)
      (omega arith)

-- One entry, and then an error.
abbrev cut_off : MapAccess ℕ ℕ ℕ
cut_off = record {
  Access = ℕ;
  size_hint = λ a. none;
  next_entry = λ a. if ltb 0 a then err 404 else ok (some ((5, 50), 1));
}

visit_map_lem_example :
    (m : Numbers) × (visit_map numbers table cut_off 2 (some 2) 7 0 ≡ done (result (some 404) m))
    × Holds numbers table ((5, 50) ∷ []) m
visit_map_lem_example =
    visit_map_lem numbers table cut_off 2 2 7 0 (omega arith) (omega arith) (omega arith)
      (another refl (failed refl)) (omega arith)

listed :
    (seq : List ℕ) (es : List (ℕ × Unit {0}))
    → write_entries (as_serializer to_list) seq es ≡ ok (seq ++ map (λ e. e.0) es)
unfolding write_entries
listed seq [] = ap ok (sym (append-nil seq))
listed seq (e ∷ es) =
    listed (seq ++ e.0 ∷ []) es ∙ ap ok (append_assoc seq (e.0 ∷ []) (map (λ e. e.0) es))

listed_all :
    (es : List (ℕ × Unit {0})) → write_all (as_serializer to_list) es ≡ ok (map (λ e. e.0) es)
unfolding write_all
listed_all es = rw (listed [] es)

gives_keys :
    (es : List (ℕ × Unit {0})) → Gives (as_deserializer of_list).access (map (λ e. e.0) es) es none
gives_keys [] = ended refl
gives_keys ((k, tt) ∷ es) = another refl (gives_keys es)

same_length : (es : List (ℕ × Unit {0})) → length (map (λ e. e.0) es) ≤ length es
same_length [] = omega arith
same_length (e ∷ es) = omega (arith, same_length es)

abbrev key_list : Format (as_serializer to_list) (as_deserializer of_list)
key_list = record {
  Encodes = λ d es. d ≡ map (λ e. e.0) es;
  writes = λ es. (map (λ e. e.0) es, listed_all es, refl);
  reads = λ d es same. (map (λ e. e.0) es, gives_keys es, same_length es, λ M visit. ap visit same);
}

abbrev members : DashMap (ℕ × List (ℕ × (ℕ × Unit {0}))) ℕ
members = in_use tt tt

set_round_trip_example :
    (d : List ℕ) × (m' : DashMap (ℕ × List (ℕ × (ℕ × Unit {0}))) ℕ) × (serialize_set numbers table
        to_list
        (record { inner = members })
      ≡ done (ok d, record { inner = members }))
    × (deserialize_set numbers table of_list 3 (some 2) 7 d ≡ done (ok (record { inner = m' })))
    × IsValid numbers table m'
    × ((q : ℕ) → word numbers table m' q ≡ 0)
    × ((q : ℕ) → contents numbers table m' q ≡ contents numbers table members q)
unfolding entries total
set_round_trip_example =
    set_round_trip numbers table to_list of_list key_list members (in_use_ok tt tt) (readable tt tt)
      (omega arith) 3 2 7 (omega arith) (omega arith) (omega arith)
