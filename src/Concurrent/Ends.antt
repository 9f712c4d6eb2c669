-- ===== src/Concurrent/Ends.antt =====
-- The runs of the threads end: they neither fail nor wait for each other in a circle.
use dashmap.Base.{
  ℕ, suc, ◌+◌, ◌*◌, ◌≤◌, ◌<◌, ◌^◌, ◌≡◌, ◌≢◌, ◌⊎◌, refl, sym, ◌∙◌, inl, inr, some, List, [], ◌∷◌,
  map, All, length, length-map, get_elem?, set, total, arith,
}
use dashmap.Base.Outcome.{done, panicked, ◌>>=◌}
use dashmap.Key.{Key}
use dashmap.Table.{HashTable}
use dashmap.Map.{DashMap}
use dashmap.Map.State.{IsValid, home, located}
use dashmap.Concurrent.{
  Call, Reply, key_of, Thread, outside, inside, leaving, Threads, advance, step, run, start,
}
use dashmap.Concurrent.Guards.{writers, readers}
use dashmap.Concurrent.Between.{Between, start-Between}
use dashmap.Concurrent.Steps.{left}
use dashmap.Concurrent.Advancing.{
  Goes, can_enter, goes, waits, fails, can_work, can_leave, can_start,
}
use dashmap.Concurrent.Runs.{IsDone, none-IsDone, run-Ran}

module _ {ℓ} {T K V : Type ℓ} where
  -- who can step next
  data Ready (ws : List (Thread T K V)) : Type ℓ where
    nobody : All IsDone ws → Ready ws
    one_inside :
        (j : ℕ) (c : Call K V) (idx : ℕ) (t : T) (cs : List (Call K V)) (rs : List (Reply K V))
        → get_elem? ws j ≡ some (inside c idx t cs rs)
        → Ready ws
    one_leaving :
        (j : ℕ) (c : Call K V) (idx : ℕ) (cs : List (Call K V)) (rs : List (Reply K V))
        → get_elem? ws j ≡ some (leaving c idx cs rs)
        → Ready ws
    one_outside :
        (j : ℕ) (c : Call K V) (cs : List (Call K V)) (rs : List (Reply K V))
        → get_elem? ws j ≡ some (outside (c ∷ cs) rs)
        → ((i : ℕ) → (writers i ws ≡ 0) × (readers i ws ≡ 0))
        → Ready ws

  none_hold :
      (ws : List (Thread T K V)) → All IsDone ws → (i : ℕ) → (writers i ws ≡ 0) × (readers i ws ≡ 0)
  none_hold ws all i = none-IsDone i ws all

  -- one more thread, that is outside
  with_outside :
      (c : Call K V) (cs : List (Call K V)) (rs : List (Reply K V)) (ws : List (Thread T K V))
      → ((i : ℕ) → (writers i ws ≡ 0) × (readers i ws ≡ 0))
      → Ready (outside (c ∷ cs) rs ∷ ws)
  unfolding writers readers total
  with_outside c cs rs ws free =
      one_outside 0 c cs rs refl (λ i. (omega (arith, (free i).0), omega (arith, (free i).1)))

  ready : (ws : List (Thread T K V)) → Ready ws
  unfolding writers readers total
  ready [] = nobody tt
  ready (inside c idx t cs rs ∷ ws) = one_inside 0 c idx t cs rs refl
  ready (leaving c idx cs rs ∷ ws) = one_leaving 0 c idx cs rs refl
  ready (outside [] rs ∷ ws) = elim (ready ws) [
    | nobody all ↦ nobody ((rs, refl), all)
    | one_inside j c idx t cs rs' at ↦ one_inside (suc j) c idx t cs rs' at
    | one_leaving j c idx cs rs' at ↦ one_leaving (suc j) c idx cs rs' at
    | one_outside j c cs rs' at free ↦
        one_outside (suc j) c cs rs' at
          (λ i. (omega (arith, (free i).0), omega (arith, (free i).1)))
  ]
  ready (outside (c ∷ cs) rs ∷ ws) = elim (ready ws) [
    | nobody all ↦ with_outside c cs rs ws (none_hold ws all)
    | one_inside j c' idx t cs' rs' at ↦ one_inside (suc j) c' idx t cs' rs' at
    | one_leaving j c' idx cs' rs' at ↦ one_leaving (suc j) c' idx cs' rs' at
    | one_outside j c' cs' rs' at free ↦ with_outside c cs rs ws free
  ]

  left-IsDone : (ws : List (Thread T K V)) → All IsDone ws → total left ws ≡ 0
  unfolding total
  left-IsDone [] h = refl
  left-IsDone (w ∷ ws) h = rw h.0.1 (omega (arith, left-IsDone ws h.1))

module _ {ℓ} (T : Type ℓ) {K V : Type ℓ} where
  left-start :
      (programs : List (List (Call K V)))
      → total (left {T = T}) (map (λ cs. outside cs []) programs) ≡ 3 * total length programs
  unfolding total
  left-start [] = refl
  left-start (cs ∷ programs) = omega (arith, left-start programs)

module _ {ℓ} {K V S : Type ℓ} (key : Key K S) (H : HashTable (K × V)) where
  open H use {T, slots}

  abbrev pub CanStep : Threads T S K V → Type ℓ
  CanStep p = (i : ℕ) × (q : Threads T S K V) × (step key H i p ≡ done q)

  steps_on :
      (p : Threads T S K V) (b : Between key H p.map p.threads) (j : ℕ) {w : Thread T K V}
      → get_elem? p.threads j ≡ some w
      → Goes key H p.map p.threads b j w
      → CanStep p
  unfolding step
  steps_on p b j at g =
      (j, record { map = g.m'; threads = set p.threads j g.w' }, rw (step, at, g.runs, ◌>>=◌))

  -- Where not every call is over, some thread can step.
  not_stuck :
      (p : Threads T S K V) → Between key H p.map p.threads → All IsDone p.threads ⊎ CanStep p
  not_stuck p b = elim (ready p.threads) [
    | nobody all ↦ inl all
    | one_inside j c idx t cs rs at ↦
        inr (steps_on p b j at (can_work key H p.map p.threads b j c idx t cs rs at))
    | one_leaving j c idx cs rs at ↦
        inr (steps_on p b j at (can_leave key H p.map p.threads b j c idx cs rs at))
    | one_outside j c cs rs at free ↦
        let l = located key H p.map (key_of c) b.valid in
        let (no_w, no_r) = free (home key H p.map (key_of c)) in
        let unlocked : l.s.raw ≡ 0 = omega (arith, b.words.raws _ l.s l.at, no_w, no_r) in
        inr (steps_on p b j at (can_start key H p.map p.threads b j c cs rs at unlocked))
  ]

  -- With few threads no step fails.
  no_panic :
      (p : Threads T S K V) (j : ℕ) (w : Thread T K V)
      → Between key H p.map p.threads
      → 4 * length p.threads + 8 < 2 ^ 64
      → get_elem? p.threads j ≡ some w
      → advance key H w p.map ≢ panicked
  unfolding advance
  no_panic p j (outside [] rs) b few at bad = cc
  no_panic p j (outside (c ∷ cs) rs) b few at bad =
      elim (can_enter key H p.map p.threads b j c cs rs at) [
        | goes g ↦ let both = sym g.runs ∙ bad in cc
        | waits h ↦ let both = sym h ∙ bad in cc
        | fails h many ↦ absurd (omega (arith, few, many))
      ]
  no_panic p j (inside c idx t cs rs) b few at bad =
      let both = sym (can_work key H p.map p.threads b j c idx t cs rs at).runs ∙ bad in cc
  no_panic p j (leaving c idx cs rs) b few at bad =
      let both = sym (can_leave key H p.map p.threads b j c idx cs rs at).runs ∙ bad in cc

module _ {ℓ} {K V S : Type ℓ} (key : Key K S) (H : HashTable (K × V)) (m : DashMap H.T S)
    (valid : IsValid key H m) (free : All (λ s. s.raw ≡ 0) m.shards) where
  open H use {T, slots}

  -- In every run of fewer than 2 ^ 62 - 2 threads that call `get`, `contains_key`, `insert`, `remove`,
  -- `remove_if`, `remove_if_mut` and `alter` on one valid map, of which nobody held a lock at the start:
  -- as long as some call has not returned, some thread can
  -- step, so that they never all wait for each other; no thread stands at a step that panics; and
  -- the run has three steps for each call when all have returned, and never more.
  pub concurrent_ends :
      (programs : List (List (Call K V))) (turns : List ℕ) {p : Threads T S K V}
      → 4 * length programs + 8 < 2 ^ 64
      → run key H turns (start m programs) ≡ done p
      → (All IsDone p.threads ⊎ CanStep key H p)
        × ((j : ℕ) (w : Thread T K V)
            → get_elem? p.threads j ≡ some w
            → advance key H w p.map ≢ panicked)
        × (length turns ≤ 3 * total length programs)
        × (All IsDone p.threads → length turns ≡ 3 * total length programs)
  concurrent_ends programs turns {p} few h =
      let r =
        run-Ran key H turns (start m programs) (start-Between key H m programs valid free) h in
      let count = left-start T programs in
      let many : length p.threads ≡ length programs =
        r.many ∙ length-map (λ cs. outside cs []) programs in
      (
        not_stuck key H p r.between,
        λ j w at. no_panic key H p j w r.between (omega (arith, few, many)) at,
        omega (arith, r.fewer, count),
        λ all. omega (arith, r.fewer, count, left-IsDone p.threads all),
      )
