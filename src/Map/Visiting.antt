-- ===== src/Map/Visiting.antt =====
-- What an `Iter` yields, and that it leaves no lock behind.
pub mod Calls
use dashmap.Base.{
  ℕ, zero, suc, ◌+◌, ◌-◌, ◌≤◌, ◌<◌, ◌≡◌, ◌≢◌, refl, sym, ◌∙◌, ap, Option, none, some, List, [], ◌∷◌,
  ◌++◌, length, All, All-get_elem?, get_elem?, drop, drop-get_elem?, drop_all, set_comm,
  get_elem?_within, get_elem?-set_ne, lt_of_get_elem?, length-set, arith,
}
use dashmap.Base.Outcome.{Outcome, done, ◌>>=◌}
use mathlib.Core.Option
use dashmap.Key.{Key}
use dashmap.Table.{HashTable}
use dashmap.Map.{RwLock, DashMap, put_shard, read, drop_read}
use dashmap.Map.State.{IsValid, entries}
use dashmap.Map.Guards.{read_lem, drop_read_lem}
use dashmap.Map.Loops.{IsReadable}
use dashmap.Map.Iter.{Iter, RefMulti, iter, next, next_shard, drop_iter, collect, pairs}
use dashmap.Map.Pairs.{all_pairs, all_pairs-Lists, Lists}
use dashmap.Map.Owning.{head, tail}
use dashmap.Map.Visiting.Calls.{At, to_come, drop_iter_lem, next_lem}

module _ {ℓ} {A : Type ℓ} where
  pub no_head : (xs : List A) → none ≡ head xs → xs ≡ []
  no_head [] e = refl
  no_head (x ∷ xs) e = cc

  pub nothing_left : (xs : List A) → length xs ≤ 0 → xs ≡ []
  nothing_left [] h = refl
  nothing_left (x ∷ xs) h = absurd (omega arith)

  pub head-tail : (xs ys : List A) (x : A) → some x ≡ head xs → ys ≡ tail xs → xs ≡ x ∷ ys
  head-tail [] ys x e o = cc
  head-tail (y ∷ xs) ys x e o =
      let same : y ≡ x = cc in ap (λ z. z ∷ xs) same ∙ ap (λ l. x ∷ l) (sym o)

module _ {ℓ} {K V S : Type ℓ} (H : HashTable (K × V)) (m : DashMap H.T S)
    (readable : All IsReadable m.shards) where
  open H use {T, slots}

  -- A turn of the loop: `next` has run, and the later turns do what they should.
  turn :
      (n : ℕ) (it : Iter K V) (m' : DashMap T S)
      → ((it' : Iter K V) (m'' : DashMap T S)
          → At H m readable it' m''
          → length (to_come H m readable it') ≤ n
          → collect H n it' m'' ≡ done (to_come H m readable it', m))
      → length (to_come H m readable it) ≤ suc n
      → (r : Option (RefMulti K V)) (it' : Iter K V) (m'' : DashMap T S)
      → next H it m' ≡ done (r, it', m'')
      → At H m readable it' m''
      → Option.map (λ e. (e.k, e.v)) r ≡ head (to_come H m readable it)
      → to_come H m readable it' ≡ tail (to_come H m readable it)
      → collect H (suc n) it m' ≡ done (to_come H m readable it, m)
  unfolding collect
  turn n it m' later small none it' m'' run at first others = rw (
    collect,
    run,
    ◌>>=◌,
    drop_iter_lem H m readable it' m'' at,
    no_head (to_come H m readable it) first,
  )
  turn n it m' later small (some e) it' m'' run at first others =
      let all =
        head-tail (to_come H m readable it) (to_come H m readable it') (e.k, e.v) first others in
      let fewer : length (to_come H m readable it') ≤ n = omega (arith, ap length all) in
      rw (collect, run, ◌>>=◌, later it' m'' at fewer, all)

  collect_lem :
      (n : ℕ) (it : Iter K V) (m' : DashMap T S)
      → At H m readable it m'
      → length (to_come H m readable it) ≤ n
      → collect H n it m' ≡ done (to_come H m readable it, m)
  unfolding collect
  collect_lem zero it m' at small =
      rw (drop_iter_lem H m readable it m' at, ◌>>=◌, nothing_left (to_come H m readable it) small)
  collect_lem (suc n) it m' at small =
      let x = next_lem H m readable it m' at in
      turn n it m' (collect_lem n) small x.r x.it' x.m'' x.runs x.at x.first x.others

module _ {ℓ} {K V S : Type ℓ} (key : Key K S) (H : HashTable (K × V)) where
  open H use {T, slots}

  -- A loop over a valid map each of whose locks has no writer and room for one more reader, with as
  -- many turns as there are entries or more, returns and leaves the map and its locks as they were;
  -- it sees each key that the map holds once and no other, with what the map holds under it.
  pub visits_each :
      (m : DashMap T S)
      → IsValid key H m
      → All IsReadable m.shards
      → (n : ℕ) → entries key H m ≤ n
      → (xs : List (K × V)) × (collect H n (iter H m) m ≡ done (xs, m)) × Lists key H m xs
  visits_each m valid readable n enough =
      let lists = all_pairs-Lists key H m valid in
      (
        all_pairs H m.shards,
        collect_lem H m readable n (iter H m) m (record { holds = refl; within = omega arith })
            (rw lists.many enough),
        lists,
      )
