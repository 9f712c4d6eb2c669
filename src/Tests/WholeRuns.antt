-- ===== src/Tests/WholeRuns.antt =====
-- Operations on a whole map of numbers, on a view of one, on a set, and the arithmetic of shards.
use dashmap.Base.{
  ◌⊎◌, inl, map, if◌then◌else◌, ℕ, zero, suc, ◌+◌, ◌-◌, ◌/◌, ◌%◌, ◌^◌, get_elem?, ◌<◌, ◌≤◌, ◌*◌,
  ◌≡◌, refl, Bool, true, false, not, none, some, List, [], ◌∷◌, All, length, is_some, ltb, total,
  arith, ◌==◌,
}
use mathlib.Core.Option
use dashmap.Base.Outcome.{done, blocked, panicked}
use mathlib.Core.List.Permᴰ
use dashmap.Lock.Word.{one_writer}
use dashmap.Lock.Alone
use dashmap.Clone.{Clone}
use dashmap.Lock.Quiet.{IsQuiet}
use dashmap.Shards
use dashmap.Shards.Bounds.{determine_shard_lem, default_shard_amount_lem}
use dashmap.Map.{DashMap, with_capacity_and_hasher_and_shard_amount}
use dashmap.Map.State.{IsValid, contents, word, entries}
use dashmap.Map.Whole.{retain, clone, len, is_empty, capacity}
use dashmap.Map.Copying.{written, IsCopy, clone_lem}
use dashmap.Map.Loops.{IsReadable}
use dashmap.Map.Sizes.{room, capacity_lem}
use dashmap.Map.Retaining.{Mapped, retained, retain_lem}
use dashmap.Map.IterMut.{alter_all}
use dashmap.Map.Altered.{altered_pair}
use dashmap.Map.AlterAll.{alter_all_lem}
use dashmap.Map.Whole.{try_reserve}
use dashmap.Map.Reserving.{try_reserve_lem}
use dashmap.Map.Fresh.{IsFresh, make_lem}
use dashmap.Map.Making.{extend}
use dashmap.Map.Extending.{inserted, extend_lem}
use dashmap.Map.Iter.{OwningIter, into_iter, next_owned, collect_owned}
use dashmap.Map.Iter
use dashmap.Map.Iter.{collect}
use dashmap.Map.Visiting.{visits_each}
use dashmap.Map.Pairs.{Lists}
use dashmap.Map.Owning.{into_iter_lem}
use dashmap.ReadOnly.{into_read_only, get_key_value, get, contains_key, iter}
use dashmap.ReadOnly.Reading.{reading_lem, iter_lem}
use dashmap.DashSet as Set
use dashmap.DashSet.{DashSet}
use dashmap.DashSet.Members.{member, Changed, set_insert_lem}
use dashmap.Tests.World.{eq_refl, numbers, table, hash_of, world, world-IsValid}

abbrev Numbers : Type 0
Numbers = DashMap (ℕ × List (ℕ × (ℕ × ℕ))) ℕ

free_word : IsQuiet 0
free_word = record { fits = omega arith; no_flags = refl }

a_reader : IsQuiet 4
a_reader = record { fits = omega arith; no_flags = refl }

-- 20 under 2 and 10 under 1
abbrev m : Numbers
m = world 0 0 20 10

ok : IsValid numbers table m
ok = world-IsValid 0 0 20 10 free_word free_word

-- the same while the shard of 1 is read
abbrev in_use : Numbers
in_use = world 0 4 20 10

in_use_ok : IsValid numbers table in_use
in_use_ok = world-IsValid 0 4 20 10 free_word a_reader

readable : All IsReadable in_use.shards
readable = (
  record { quiet = free_word; room = omega arith },
  (record { quiet = a_reader; room = omega arith }, tt),
)

nobody : (q : ℕ) → word numbers table m q ≡ 0
unfolding word
nobody q = zeros (hash_of 1 q * 2 ^ 7 % 2 ^ 64 / 2 ^ 63)
  where
    zeros : (i : ℕ) → let w : ℕ = elim (get_elem? m.shards i) [ none ↦ 0 | some s ↦ s.raw ] in w ≡ 0
    zeros zero = refl
    zeros (suc zero) = refl
    zeros (suc (suc i)) = refl

abbrev less : ℕ → ℕ → Bool × ℕ
less k v = (ltb v 15, v + 1)

retain_lem_example :
    (m' : Numbers) × (retain numbers table m less ≡ done m')
    × Mapped numbers table m ok (refl, (refl, tt)) (retained less) m'
retain_lem_example = retain_lem numbers table m ok (refl, (refl, tt)) less

-- values that count how often they were copied
abbrev counting : Clone numbers (table {V = ℕ})
counting = record {
  clone_key = λ k. k;
  clone_value = λ v. v + 1;
  clone_hasher = λ s. s;
  clone_table = λ t. (t.0, map (λ e. (e.0, (e.1.0, e.1.1 + 1))) t.1);
  equal-clone_key = eq_refl;
  hash-clone_hasher = λ s k. refl;
  slots-clone_table = λ t. Permᴰ.refl (map (λ e. (e.0, (e.1.0, e.1.1 + 1))) t.1);
}

clone_lem_example :
    (m' : Numbers) × (clone numbers table counting in_use
      ≡ (if written in_use.shards then blocked else done (m', in_use)))
    × IsCopy numbers table counting in_use m'
clone_lem_example =
    clone_lem numbers table counting in_use in_use_ok (inl readable.0, (inl readable.1.0, tt))

-- A copy is made while a shard is read, and not while it is written to.
clones :
    (clone numbers table counting in_use ≡ done (world 0 0 21 11, in_use))
    × (clone numbers table counting (world 0 one_writer 20 10) ≡ blocked)
unfolding clone Alone.lock_shared Alone.unlock_shared
clones = (refl, refl)

alter_all_lem_example :
    (m' : Numbers) × (alter_all table m (λ k v. k + v) ≡ done m')
    × Mapped numbers table m ok (refl, (refl, tt)) (altered_pair numbers table (λ k v. k + v)) m'
alter_all_lem_example = alter_all_lem numbers table m ok (refl, (refl, tt)) (λ k v. k + v)

try_reserve_lem_example :
    (no_error : Bool) × (m' : Numbers) × (try_reserve numbers table m 100 ≡ done (no_error, m'))
    × Mapped numbers table m ok (refl, (refl, tt)) (λ x. x) m'
    × ((no_error ≡ false)
        ⊎ (entries numbers table m + length m.shards * 100 ≤ room numbers table m'))
try_reserve_lem_example = try_reserve_lem numbers table m ok (refl, (refl, tt)) 100

capacity_lem_example :
    (capacity numbers table in_use ≡ done (room numbers table in_use, in_use))
    × (len numbers table in_use ≡ done (entries numbers table in_use, in_use))
    × (is_empty numbers table in_use ≡ done (entries numbers table in_use == 0, in_use))
    × (entries numbers table in_use ≤ room numbers table in_use)
unfolding room total
capacity_lem_example = capacity_lem numbers table in_use readable (omega arith)

make_lem_example :
    (m' : Numbers) × (with_capacity_and_hasher_and_shard_amount numbers table 10 1 (2 ^ 2)
      ≡ done m')
    × (length m'.shards ≡ 2 ^ 2)
    × IsFresh numbers table 10 m'
make_lem_example = make_lem numbers table 2 10 1 (omega arith) (omega arith) (omega arith)

extend_lem_example :
    (m' : Numbers) × (extend numbers table m ((1, 11) ∷ (3, 30) ∷ []) ≡ done m')
    × IsValid numbers table m'
    × ((q : ℕ) → word numbers table m' q ≡ 0)
    × ((q : ℕ)
        → contents numbers table m' q
          ≡ inserted numbers q (contents numbers table m q) ((1, 11) ∷ (3, 30) ∷ []))
extend_lem_example = extend_lem numbers table ((1, 11) ∷ (3, 30) ∷ []) m ok nobody

into_iter_lem_example : Lists numbers table in_use (collect_owned table 2 (into_iter table in_use))
unfolding entries total
into_iter_lem_example = into_iter_lem numbers table in_use in_use_ok 2 (omega arith)

visits_each_example :
    (xs : List (ℕ × ℕ)) × (collect table 2 (Iter.iter table in_use) in_use ≡ done (xs, in_use))
    × Lists numbers table in_use xs
unfolding entries total
visits_each_example = visits_each numbers table in_use in_use_ok readable 2 (omega arith)

reading_lem_example :
    (get_key_value numbers table (into_read_only in_use) 1 ≡ done (contents numbers table in_use 1))
    × (get numbers table (into_read_only in_use) 1
        ≡ done (Option.map (λ e. e.1) (contents numbers table in_use 1)))
    × (contains_key numbers table (into_read_only in_use) 1
        ≡ done (is_some (contents numbers table in_use 1)))
reading_lem_example = reading_lem numbers table in_use in_use_ok 1

iter_lem_example : Lists numbers table in_use (iter numbers table (into_read_only in_use))
iter_lem_example = iter_lem numbers table in_use in_use_ok

determine_shard_lem_example :
    (Shards.determine_shard (64 - 2) (2 ^ 2) (2 ^ 56) ≡ done (Shards.shard_index (64 - 2) (2 ^ 56)))
    × (Shards.shard_index (64 - 2) (2 ^ 56) < 2 ^ 2)
    × (Shards.shard_index (64 - 2) (2 ^ 56) ≡ Shards.shard_index (64 - 2) (2 ^ 56 % 2 ^ 57))
    × (Shards.determine_shard 64 1 (2 ^ 56) ≡ panicked)
determine_shard_lem_example = determine_shard_lem 2 (2 ^ 56) (omega arith) (omega arith)

default_shard_amount_lem_example :
    (p : ℕ) × (Shards.default_shard_amount (some 6) ≡ done (2 ^ p)) × (6 * 4 ≤ 2 ^ p) × (p < 64)
default_shard_amount_lem_example = default_shard_amount_lem 6 (omega arith) (omega arith)

-- 2 and 1
abbrev two_members : DashSet (ℕ × List (ℕ × (ℕ × Unit {0}))) ℕ
two_members = record { inner = world 0 0 tt tt }

two_members_ok : IsValid numbers table two_members.inner
two_members_ok = world-IsValid 0 0 tt tt free_word free_word

set_insert_lem_example :
    (s' : DashSet (ℕ × List (ℕ × (ℕ × Unit {0}))) ℕ) × (Set.insert numbers table two_members 3
      ≡ done (not (member numbers table two_members two_members_ok two_members 3), s'))
    × Changed numbers table two_members two_members_ok 3 true s'
unfolding word
set_insert_lem_example = set_insert_lem numbers table two_members two_members_ok 3 refl
