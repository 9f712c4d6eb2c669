-- ===== src/Tests/MapRuns.antt =====
-- Operations on one key of a map of numbers.
use dashmap.Base.{
  total, ℕ, ◌+◌, ◌^◌, ◌≡◌, refl, Bool, Option, none, some, List, if◌then◌else◌, ltb, ◌==◌, arith,
}
use mathlib.Core.Option
use dashmap.Base.Outcome.{done, ◌>>=◌}
use dashmap.Lock.Quiet.{IsQuiet}
use dashmap.TryResult.{locked}
use dashmap.Map.{DashMap, Ref, RefMut}
use dashmap.Map.State.{IsValid, contents, word}
use dashmap.Map.Updates.{Updated}
use dashmap.Map.IterMut.{alter_all}
use dashmap.Map.Access.{get, get_mut, try_get, alter, remove, remove_if_mut}
use dashmap.Map.Access.Reading.{Gets, get_lem, try_get_lem, to_try}
use dashmap.Map.Access.Writing.{GetsMut, get_mut_lem, alter_lem}
use dashmap.Map.Access.Removing.{taken_by, left_by, remove_lem, remove_if_mut_lem}
use dashmap.Map.Entry.{entry, try_entry, or_insert, and_modify, insert}
use dashmap.Map.Inserting.{key_under, or_modified, Lent, insert_lem, and_modify-or_insert}
use dashmap.Map.Leaving.{try_entry_lem}
use dashmap.Tests.World.{numbers, table, world, world-IsValid}

abbrev Numbers : Type 0
Numbers = DashMap (ℕ × List (ℕ × (ℕ × ℕ))) ℕ

free_word : IsQuiet 0
free_word = record { fits = omega arith; no_flags = refl }

two_readers : IsQuiet 8
two_readers = record { fits = omega arith; no_flags = refl }

-- 20 under 2 and 10 under 1
abbrev m : Numbers
m = world 0 0 20 10

ok : IsValid numbers table m
ok = world-IsValid 0 0 20 10 free_word free_word

-- the same with two readers in the shard of 1
abbrev read_twice : Numbers
read_twice = world 0 8 20 10

read_twice_ok : IsValid numbers table read_twice
read_twice_ok = world-IsValid 0 8 20 10 free_word two_readers

abbrev less : ℕ → ℕ → Bool × ℕ
less k v = (ltb v 15, v + 1)

insert_lem_example :
    (m' : Numbers) × (insert numbers table m 1 11
      ≡ done (Option.map (λ e. e.1) (contents numbers table m 1), m'))
    × Updated numbers table m 1
        (some (key_under numbers table m 1 ok (contents numbers table m 1), 11))
        m'
unfolding word
insert_lem_example = insert_lem numbers table m 1 ok 11 refl

remove_lem_example :
    (m' : Numbers) × (remove numbers table m 1 ≡ done (contents numbers table m 1, m'))
    × Updated numbers table m 1 none m'
unfolding word
remove_lem_example = remove_lem numbers table m 1 ok refl

remove_if_mut_lem_example :
    (m' : Numbers) × (remove_if_mut numbers table m 1 less
      ≡ done (taken_by less (contents numbers table m 1), m'))
    × Updated numbers table m 1 (left_by less (contents numbers table m 1)) m'
unfolding word
remove_if_mut_lem_example = remove_if_mut_lem numbers table m 1 ok less refl

get_lem_example :
    (r : Option (Ref ℕ ℕ)) × (m' : Numbers) × (get numbers table read_twice 1 ≡ done (r, m'))
    × Gets numbers table read_twice 1 r m'
unfolding word
get_lem_example = get_lem numbers table read_twice 1 read_twice_ok (omega arith)

try_get_lem_example : try_get numbers table read_twice 1 ≡ (
    if ltb (word numbers table read_twice 1 + 8) (2 ^ 64)
    then get numbers table read_twice 1
      >>= (λ r. done (to_try numbers table read_twice 1 read_twice_ok r.0, r.1))
    else done (locked, read_twice))
try_get_lem_example = try_get_lem numbers table read_twice 1 read_twice_ok

get_mut_lem_example :
    (r : Option (RefMut ℕ ℕ)) × (m' : Numbers) × (get_mut numbers table m 1 ≡ done (r, m'))
    × GetsMut numbers table m 1 r m'
unfolding word
get_mut_lem_example = get_mut_lem numbers table m 1 ok refl

alter_lem_example :
    (m' : Numbers) × (alter numbers table m 1 (λ k v. k + v) ≡ done m')
    × Updated numbers table m 1 (Option.map (λ e. (e.0, e.0 + e.1)) (contents numbers table m 1)) m'
unfolding word
alter_lem_example = alter_lem numbers table m 1 ok (λ k v. k + v) refl

and_modify-or_insert_example :
    Lent numbers table m 1 ok
      (or_modified numbers table m 1 ok (λ v. v + 1) 1 (contents numbers table m 1))
      (entry numbers table m 1
        >>= (λ e. and_modify numbers table e.0 (λ v. v + 1) e.1)
        >>= (λ e. or_insert numbers table e.0 1 e.1))
unfolding word
and_modify-or_insert_example = and_modify-or_insert numbers table m 1 ok (λ v. v + 1) 1 refl

try_entry_lem_example : try_entry numbers table read_twice 1 ≡ (
    if word numbers table read_twice 1 == 0
    then entry numbers table read_twice 1 >>= (λ r. done (some r))
    else done none)
try_entry_lem_example = try_entry_lem numbers table read_twice 1 read_twice_ok

alter_all_of_two : alter_all table m (λ k v. k + v) ≡ done (world 0 0 22 11)
unfolding alter_all total dashmap.Lock.Alone.lock_exclusive dashmap.Lock.Alone.unlock_exclusive
alter_all_of_two = refl
