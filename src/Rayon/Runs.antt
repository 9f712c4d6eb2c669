-- ===== src/Rayon/Runs.antt =====
-- The runs of `par_extend`: what they leave, and that they end.
use dashmap.Base.{
  ℕ, suc, ◌+◌, ◌*◌, ◌≤◌, ◌≡◌, refl, sym, ◌∙◌, ap, subst, some, List, [], ◌∷◌, ◌++◌, ◌⊎◌, ◌↔◌,
  All-get_elem?, All-of_get_elem?, inl, inr, Permᴰ, All, length, get_elem?, total, arith,
}
use mathlib.Core.List.Permᴰ
use dashmap.Base.Outcome.{done, ◌>>=◌}
use dashmap.Key.{Key}
use dashmap.Table.{HashTable}
use dashmap.Map.{DashMap}
use dashmap.Map.State.{IsValid, contents, word, home, located}
use dashmap.Map.Entry.{Entry}
use dashmap.Map.Making.{extend}
use dashmap.Map.Extending.{inserted, extend_lem}
use dashmap.Map.Distinct.{AreDistinct, inserted-perm}
use dashmap.Rayon.{
  Worker, waiting, inside, finished, ParExtend, par_extend, advance, Step, turn, Reach, here, next,
  steps,
}
use dashmap.Rayon.Released.{released_free, entry_free}
use dashmap.Rayon.Workers.{holders, work, work-start, work-set, pending-done, holders-le-work}
use dashmap.Rayon.Between.{Between, start-Between}
use dashmap.Rayon.Atomic.{advance-Between, left_it}

module _ {ℓ} {K V : Type ℓ} where
  -- Every worker has finished.
  abbrev pub AreFinished : List (Worker K V) → Type ℓ
  AreFinished ws = All (λ w. w ≡ finished) ws

  -- who can step next
  data Ready (ws : List (Worker K V)) : Type ℓ where
    nobody : AreFinished ws → Ready ws
    one_inside : (j : ℕ) (e : Entry K V) (v : V) → get_elem? ws j ≡ some (inside e v) → Ready ws
    one_waiting :
        (j : ℕ) (k : K) (v : V)
        → get_elem? ws j ≡ some (waiting k v)
        → ((i : ℕ) → holders i ws ≡ 0)
        → Ready ws

  ready : (ws : List (Worker K V)) → Ready ws
  unfolding holders total
  ready [] = nobody tt
  ready (inside e v ∷ ws) = one_inside 0 e v refl
  ready (waiting k v ∷ ws) = elim (ready ws) [
    | nobody all ↦ one_waiting 0 k v refl (λ i. omega (arith, none_hold i ws all))
    | one_inside j e v' at ↦ one_inside (suc j) e v' at
    | one_waiting j k' v' at free ↦ one_waiting 0 k v refl (λ i. omega (arith, free i))
  ]
    where
      none_hold : (i : ℕ) (us : List (Worker K V)) → AreFinished us → holders i us ≡ 0
      none_hold i [] h = refl
      none_hold i (u ∷ us) h = rw h.0 (omega (arith, none_hold i us h.1))
  ready (finished ∷ ws) = elim (ready ws) [
    | nobody all ↦ nobody (refl, all)
    | one_inside j e v at ↦ one_inside (suc j) e v at
    | one_waiting j k v at free ↦ one_waiting (suc j) k v at (λ i. omega (arith, free i))
  ]

  work-AreFinished : (ws : List (Worker K V)) → AreFinished ws → work ws ≡ 0
  unfolding work total
  work-AreFinished [] h = refl
  work-AreFinished (w ∷ ws) h = rw h.0 (omega (arith, work-AreFinished ws h.1))

  AreFinished-work : (ws : List (Worker K V)) → work ws ≡ 0 → AreFinished ws
  unfolding work total
  AreFinished-work [] h = tt
  AreFinished-work (waiting k v ∷ ws) h = absurd (omega arith)
  AreFinished-work (inside e v ∷ ws) h = absurd (omega arith)
  AreFinished-work (finished ∷ ws) h = (refl, AreFinished-work ws (omega arith))

module _ {ℓ} {K V S : Type ℓ} (key : Key K S) (H : HashTable (K × V)) (m : DashMap H.T S)
    (pairs : List (K × V)) (valid : IsValid key H m) (free : All (λ s. s.raw ≡ 0) m.shards) where
  open H use {T, slots}

  Reach-Between :
      {p : ParExtend T S K V} (r : Reach key H (par_extend m pairs) p)
      → Between key H m pairs p.map p.workers × (steps key H r + work p.workers ≡ 2 * length pairs)
  unfolding steps
  Reach-Between here = (start-Between key H m pairs valid free, omega (arith, work-start pairs))
  Reach-Between (next {q = q} r (turn i {w} {w'} {m'} at run)) =
      let (b, count) = Reach-Between r in
      let (b', fewer) = advance-Between key H m pairs q.map q.workers i w w' m' b at run in
      (b', omega (arith, count, fewer, work-set q.workers i w' at))

  -- a state in which some call is not over
  not_stuck :
      (p : ParExtend T S K V)
      → Between key H m pairs p.map p.workers
      → Ready p.workers
      → AreFinished p.workers ⊎ ((q : ParExtend T S K V) × Step key H p q)
  unfolding advance
  not_stuck p b (nobody all) = inl all
  not_stuck p b (one_inside j e v at) =
      let (m', run, _) = left_it key H m pairs p.map p.workers b j e v at in
      inr (_, turn j {w' = finished} {m' = m'} at (rw (run, ◌>>=◌)))
  not_stuck p b (one_waiting j k v at unheld) =
      let l = located key H p.map k b.valid in
      let unlocked : l.s.raw ≡ 0 = omega (arith, b.words.raws _ l.s l.at, unheld _) in
      let lets_in = entry_free key H p.map k l.s b.valid l.at unlocked in
      inr (_, turn j at (ap (λ r. r >>= (λ y. done (inside y.0 v, y.1))) lets_in))

  -- In each run of `par_extend` on a valid map that nobody holds a lock of, a step is possible as
  -- long as not every call has returned: the workers never all wait for each other. The run ends
  -- after two steps for each item, with every call returned, and not before.
  pub par_extend_ends :
      {p : ParExtend T S K V} (r : Reach key H (par_extend m pairs) p)
      → (AreFinished p.workers ⊎ ((q : ParExtend T S K V) × Step key H p q))
        × (steps key H r ≤ 2 * length pairs)
        × (AreFinished p.workers ↔ (steps key H r ≡ 2 * length pairs))
  par_extend_ends {p} r =
      let (b, count) = Reach-Between r in
      (
        not_stuck p b (ready p.workers),
        omega (arith, count),
        (
          λ all. omega (arith, count, work-AreFinished p.workers all),
          λ enough. AreFinished-work p.workers (omega (arith, count, enough)),
        ),
      )

  -- However the calls of `insert` of a `par_extend` interleave, once all have returned the map is
  -- the one that `extend` makes of it with the items in some order, each as often as it was given.
  -- This is for a valid map that nobody holds a lock of.
  pub par_extend_atomic :
      {p : ParExtend T S K V}
      → Reach key H (par_extend m pairs) p
      → AreFinished p.workers
      → (order : List (K × V)) × Permᴰ order pairs × (extend key H m order ≡ done p.map)
  par_extend_atomic {p} r all =
      let (b, _) = Reach-Between r in
      let over = work-AreFinished p.workers all in
      let unlocked =
        All-of_get_elem? (λ s. s.raw ≡ 0) p.map.shards
          (λ i s at. omega (arith, b.words.raws i s at, holders-le-work i p.workers, over)) in
      (
        b.order,
        Permᴰ.trans (Permᴰ.symm (Permᴰ.append-nil b.order))
            (subst (λ l. Permᴰ (b.order ++ l) pairs) (pending-done p.workers over) b.perm),
        b.ran ∙ ap done (released_free p.map unlocked),
      )

  -- Where the items have pairwise unequal keys, every run of a `par_extend` on a valid map that
  -- nobody holds a lock of leaves, once all calls have returned, a valid map that nobody holds a
  -- lock of, with what the items inserted in the order that they are given leave under each key.
  pub par_extend_distinct :
      {p : ParExtend T S K V}
      → AreDistinct key pairs
      → Reach key H (par_extend m pairs) p
      → AreFinished p.workers
      → IsValid key H p.map
        × ((q : K) → word key H p.map q ≡ 0)
        × ((q : K) → contents key H p.map q ≡ inserted key q (contents key H m q) pairs)
  par_extend_distinct {p} distinct r all =
      let (order, perm, run) = par_extend_atomic r all in
      let nobody = λ (q : K).
        let l = located key H m q valid in
        l.locked ∙ All-get_elem? (λ s. s.raw ≡ 0) m.shards (home key H m q) free l.at in
      let (m', run', valid', unlocked, reads) = extend_lem key H order m valid nobody in
      let both = sym run' ∙ run in
      let same : m' ≡ p.map = cc in
      (
        subst (λ x. IsValid key H x) same valid',
        λ q. ap (λ x. word key H x q) (sym same) ∙ unlocked q,
        λ q.
            ap (λ x. contents key H x q) (sym same)
            ∙ reads q
            ∙ inserted-perm key q (contents key H m q) perm (distinct q),
      )
