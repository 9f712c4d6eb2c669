-- ===== src/Concurrent/Runs.antt =====
-- The runs of the threads: each is a sequence of whole calls, seen from outside.
use dashmap.Base.{
  ℕ, ◌+◌, ◌≡◌, refl, sym, ◌∙◌, ap, subst, inl, inr, Bool, true, false, Option-cases, none, some,
  List, [], ◌∷◌, map, All, length, get_elem?, get_elem?-map, set, set_same, map-set, length-set,
  total, total-set, All-of_get_elem?, arith, if◌then◌else◌,
}
use dashmap.Base.Outcome.{Outcome-cases, done, blocked, panicked, ◌>>=◌}
use dashmap.Key.{Key}
use dashmap.Table.{HashTable}
use dashmap.Map.{DashMap}
use dashmap.Map.State.{IsValid}
use dashmap.Rayon.Released.{released, released_free}
use dashmap.Concurrent.{
  Call, Reply, Thread, outside, inside, leaving, Threads, advance, step, run, one_by_one, start,
}
use dashmap.Concurrent.Guards.{writers, readers}
use dashmap.Concurrent.Seen.{seen_thread, seen}
use dashmap.Concurrent.Between.{Between, start-Between}
use dashmap.Concurrent.Steps.{left, Shows}
use dashmap.Concurrent.Advancing.{advance-Moved}

module _ {ℓ} {T K V : Type ℓ} where
  -- whether the next step of a thread is the work of a call
  abbrev pub is_working : Thread T K V → Bool
  is_working (inside c idx t cs rs) = true
  is_working _ = false

  -- A thread that has made all its calls.
  abbrev pub IsDone : Thread T K V → Type ℓ
  IsDone w = (rs : List (Reply K V)) × (w ≡ outside [] rs)

  pub none-IsDone :
      (i : ℕ) (ws : List (Thread T K V)) → All IsDone ws → (writers i ws ≡ 0) × (readers i ws ≡ 0)
  unfolding writers readers total
  none-IsDone i [] h = (refl, refl)
  none-IsDone i (w ∷ ws) h =
      let (no_w, no_r) = none-IsDone i ws h.1 in rw h.0.1 (omega (arith, no_w), omega (arith, no_r))

  pub seen-IsDone : (ws : List (Thread T K V)) → All IsDone ws → map seen_thread ws ≡ ws
  seen-IsDone [] h = refl
  seen-IsDone (w ∷ ws) h = rw h.0.1 (ap (λ l. outside [] h.0.0 ∷ l) (seen-IsDone ws h.1))

module _ {ℓ} {T K V : Type ℓ} where
  starting :
      (programs : List (List (Call K V)))
      → map (seen_thread {T = T}) (map (λ cs. outside cs []) programs)
        ≡ map (λ cs. outside cs []) programs
  starting [] = refl
  starting (cs ∷ programs) = ap (λ l. outside cs [] ∷ l) (starting programs)

module _ {ℓ} {T S K V : Type ℓ} where
  pub seen-start :
      (m : DashMap T S) (programs : List (List (Call K V)))
      → All (λ s. s.raw ≡ 0) m.shards
      → seen (start m programs) ≡ start m programs
  seen-start m programs free =
      ap (λ x. record { map = x; threads = map seen_thread (start m programs).threads })
        (released_free m free)
      ∙ ap (λ l. record { map = m; threads = l }) (starting programs)

module _ {ℓ} {K V S : Type ℓ} (key : Key K S) (H : HashTable (K × V)) where
  open H use {T, slots}

  -- Of the steps of a run, those at which a call happens: its work is done.
  unfoldable pub effects : List ℕ → Threads T S K V → List ℕ
  effects [] p = []
  effects (i ∷ turns) p = elim (get_elem? p.threads i) [
    | none ↦ []
    | some w ↦ elim (advance key H w p.map) [
      | done (w', m') ↦
          let rest = effects turns (record { map = m'; threads = set p.threads i w' }) in
          if is_working w then i ∷ rest else rest
      | blocked ↦ []
      | panicked ↦ []
    ]
  ]

  unseen_step :
      (p : Threads T S K V) (i : ℕ) (turns : List ℕ) (w w' : Thread T K V) (m' : DashMap T S)
      → get_elem? p.threads i ≡ some w
      → seen_thread w' ≡ seen_thread w
      → released m' ≡ released p.map
      → let p' : Threads T S K V = record { map = m'; threads = set p.threads i w' } in
        one_by_one key H turns (seen p) ≡ one_by_one key H turns (seen p')
  unseen_step p i turns w w' m' at same_w same_m =
      let same =
        map-set seen_thread p.threads i w'
        ∙ ap (set (map seen_thread p.threads) i) same_w
        ∙ set_same (map seen_thread p.threads) i (seen_thread w)
            (get_elem?-map seen_thread p.threads i at) in
      ap (λ x. one_by_one key H turns (record { map = x; threads = map seen_thread p.threads }))
        (sym same_m)
      ∙ ap (λ l. one_by_one key H turns (record { map = released m'; threads = l })) (sym same)

  -- a step, and what it shows
  shown_step :
      (p : Threads T S K V) (i : ℕ) (turns : List ℕ) (w w' : Thread T K V) (m' : DashMap T S)
      → get_elem? p.threads i ≡ some w
      → Shows key H w w' p.map m'
      → let p' : Threads T S K V = record { map = m'; threads = set p.threads i w' } in
        one_by_one key H (if is_working w then i ∷ turns else turns) (seen p)
        ≡ one_by_one key H turns (seen p')
  unfolding one_by_one
  shown_step p i turns (outside cs rs) w' m' at shows =
      unseen_step p i turns (outside cs rs) w' m' at shows.0 shows.1
  shown_step p i turns (inside c idx t cs rs) w' m' at shows =
      let there = get_elem?-map seen_thread p.threads i at in
      rw (one_by_one, there, shows, ◌>>=◌)
        (ap (λ l. one_by_one key H turns (record { map = released m'; threads = l }))
          (sym (map-set seen_thread p.threads i w')))
  shown_step p i turns (leaving c idx cs rs) w' m' at shows =
      unseen_step p i turns (leaving c idx cs rs) w' m' at shows.0 shows.1

  -- what is true at the end of a run
  pub record Ran (turns : List ℕ) (p q : Threads T S K V) : Type ℓ where
    pub between : Between key H q.map q.threads
    pub shows : one_by_one key H (effects turns p) (seen p) ≡ done (seen q)
    pub fewer : length turns + total left q.threads ≡ total left p.threads
    pub many : length q.threads ≡ length p.threads

  pub run-Ran :
      (turns : List ℕ) (p : Threads T S K V) {q : Threads T S K V}
      → Between key H p.map p.threads
      → run key H turns p ≡ done q
      → Ran turns p q
  unfolding run step effects one_by_one
  run-Ran [] p {q} b h =
      let same : p ≡ q = cc in
      subst (λ x. Ran [] p x) same
        (record { between = b; shows = refl; fewer = omega arith; many = refl })
  run-Ran (i ∷ turns) p {q} b h = elim (Option-cases (get_elem? p.threads i)) [
    | inl out ↦ let bad = rw (run, step, out, ◌>>=◌) at h in cc
    | inr (w, at) ↦ elim (Outcome-cases (advance key H w p.map)) [
      | inr (inl waits) ↦ let bad = rw (run, step, at, ◌>>=◌, waits) at h in cc
      | inr (inr fails) ↦ let bad = rw (run, step, at, ◌>>=◌, fails) at h in cc
      | inl ((w', m'), goes) ↦
          let x = advance-Moved key H p.map p.threads b i w at goes in
          let p' : Threads T S K V = record { map = m'; threads = set p.threads i w' } in
          let later : run key H turns p' ≡ done q = rw (run, step, at, ◌>>=◌, goes) at h in
          let ih = run-Ran turns p' x.between later in
          record {
            between = ih.between;
            shows =
                rw (effects, at, goes)
                  (shown_step p i (effects turns p') w w' m' at x.shows ∙ ih.shows);
            fewer = omega (arith, ih.fewer, x.fewer, total-set left p.threads i w' at);
            many = ih.many ∙ length-set p.threads i w';
          }
    ]
  ]

module _ {ℓ} {K V S : Type ℓ} (key : Key K S) (H : HashTable (K × V)) (m : DashMap H.T S)
    (valid : IsValid key H m) (free : All (λ s. s.raw ≡ 0) m.shards) where
  open H use {T, slots}

  free_at_end :
      (p : Threads T S K V)
      → Between key H p.map p.threads
      → All IsDone p.threads
      → released p.map ≡ p.map
  free_at_end p b all = released_free p.map (
      All-of_get_elem? (λ s. s.raw ≡ 0) p.map.shards
        (λ i s at.
          let (w, r) = none-IsDone i p.threads all in omega (arith, b.words.raws i s at, w, r)))

  -- However the steps of threads that call `get`, `contains_key`, `insert`, `remove`, `remove_if`,
  -- `remove_if_mut` and `alter` on one valid map interleave, of which nobody held a lock at the start:
  -- seen from outside, where a call whose work is not done has not begun and the locks are let go, the
  -- map and all replies are those of whole calls that the threads make one after another, in the order
  -- in which they did the work. Once every call has returned the map is the one that these whole calls
  -- leave, with its locks.
  pub linearizable :
      (programs : List (List (Call K V))) (turns : List ℕ) {p : Threads T S K V}
      → run key H turns (start m programs) ≡ done p
      → let whole = one_by_one key H (effects key H turns (start m programs)) (start m programs) in
        (whole ≡ done (seen p)) × (All IsDone p.threads → whole ≡ done p)
  linearizable programs turns {p} h =
      let r =
        run-Ran key H turns (start m programs) (start-Between key H m programs valid free) h in
      let order = effects key H turns (start m programs) in
      let shown = ap (one_by_one key H order) (sym (seen-start m programs free)) ∙ r.shows in
      (
        shown,
        λ all.
            shown
            ∙ ap (λ x. done (record { map = x; threads = map seen_thread p.threads }))
                (free_at_end p r.between all)
            ∙ ap (λ l. done (record { map = p.map; threads = l })) (seen-IsDone p.threads all),
      )
