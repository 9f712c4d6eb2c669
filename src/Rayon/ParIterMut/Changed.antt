-- ===== src/Rayon/ParIterMut/Changed.antt =====
-- What `par_iter_mut` with `for_each` makes of a map.
use dashmap.Base.{
  ℕ, suc, ◌+◌, ◌-◌, ◌≤◌, lt_of_get_elem?, ◌≡◌, refl, sym, ◌∙◌, ap, inl, inr, Option-cases, none,
  some, List, [], ◌∷◌, map, length, length-map, length-set, get_elem?, get_elem?-map,
  get_elem?_within, set, map-set, drop, drop-get_elem?, drop_all, drop-set, arith, dec_lt,
}
use dashmap.Base.Outcome.{Outcome, done, ◌>>=◌}
use dashmap.Lock.Alone
use dashmap.Lock.Quiet.{lock_exclusive_lem, unlock_exclusive_lem}
use dashmap.Lock.Word.{one_writer}
use dashmap.Table.{HashTable}
use dashmap.Map.{RwLock}
use dashmap.Map.Iter.{pairs}
use dashmap.Map.Altered.{altered, altered_from, altered_at}
use dashmap.Map.Loops.{changed}
use dashmap.Rayon.Tasks.Driven.{Moves, moved}
use dashmap.Rayon.ParIterMut.{
  Task, unstarted, changing, closed, Row, Event, start, give, finish, give_item, finish_at, occur,
}

module _ {ℓ} {K V : Type ℓ} (H : HashTable (K × V)) (f : K → V → V) where
  open H use {T, slots}

  -- what a shard comes to
  abbrev pub outcome_of : RwLock T → Task → RwLock T
  outcome_of s unstarted = changed (altered H f) s
  outcome_of s (changing p) = changed (altered_from H f (length (slots s.data_ptr) - p) p) s
  outcome_of s closed = s

  abbrev pub rest_of : Row T → RwLock T
  rest_of r = outcome_of r.shard r.task

  abbrev pub Fits : RwLock T → Task → Type 0
  Fits s unstarted = s.raw ≡ 0
  Fits s (changing p) = (s.raw ≡ one_writer) × (p ≤ length (slots s.data_ptr))
  Fits s closed = Unit

  abbrev pub InOrder : Row T → Type 0
  InOrder r = Fits r.shard r.task

  abbrev pub owed : RwLock T → Task → List (K × V)
  owed s unstarted = pairs H s.data_ptr
  owed s (changing p) = drop p (pairs H s.data_ptr)
  owed s closed = []

  abbrev pub owed_in : Row T → List (K × V)
  owed_in r = owed r.shard r.task

  abbrev pub events_left : RwLock T → Task → ℕ
  events_left s unstarted = length (slots s.data_ptr) + 2
  events_left s (changing p) = length (slots s.data_ptr) - p + 1
  events_left s closed = 0

  abbrev pub left_in : Row T → ℕ
  left_in r = events_left r.shard r.task

  abbrev MovesTo : RwLock T → Task → Row T → List (K × V) → Type ℓ
  MovesTo s t = Moves rest_of InOrder owed_in left_in (record { shard = s; task = t })

  moved_to :
      (s : RwLock T) (t : Task) {r r' : Row T} {items items' : List (K × V)}
      → MovesTo s t r items
      → ◌≡◌ {A = Outcome (Row T × List (K × V))} (done (r, items)) (done (r', items'))
      → MovesTo s t r' items'
  moved_to s t = moved rest_of InOrder owed_in left_in (record { shard = s; task = t })

  past_end : {A : Type ℓ} (xs : List A) (p : ℕ) → get_elem? xs p ≡ none → length xs ≤ p
  past_end xs p out = elim (dec_lt p (length xs)) [
    | no over ↦ omega arith
    | yes within ↦ let (a, at) = get_elem?_within xs p within in cc
  ]

  start-Moves :
      (s : RwLock T)
      → s.raw ≡ 0
      → MovesTo s unstarted (record { shard = record s { raw = one_writer }; task = changing 0 }) []
  start-Moves s free = record {
    fits = (refl, omega arith);
    rests = ap (λ (n : ℕ). changed (altered_from H f n 0) s) (omega arith);
    pays = refl;
    fewer = omega arith;
  }

  -- what a write at the next entry leaves
  written :
      (t : T) (p h : ℕ) (k : K) (v : V)
      → get_elem? (slots t) p ≡ some (h, (k, v))
      → slots (H.write t p (k, f k v)) ≡ set (slots t) p (h, (k, f k v))
  written t p h k v at = H.slots-write t p h (k, v) (k, f k v) at

  later_turns :
      (t : T) (p h : ℕ) (k : K) (v : V)
      → get_elem? (slots t) p ≡ some (h, (k, v))
      → altered_from H f
          (length (slots (H.write t p (k, f k v))) - suc p)
          (suc p)
          (H.write t p (k, f k v))
        ≡ altered_from H f (length (slots t) - p) p t
  unfolding altered_from
  later_turns t p h k v at =
      let u = H.write t p (k, f k v) in
      let now : altered_at H f p t ≡ u = rw (at, altered_at) refl in
      let many = ap length (written t p h k v at) ∙ length-set (slots t) p (h, (k, f k v)) in
      let count : length (slots t) - p ≡ suc (length (slots u) - suc p) =
        omega (arith, many, lt_of_get_elem? (slots t) p at) in
      sym (
        ap (λ (n : ℕ). altered_from H f n p t) count
        ∙ ap (altered_from H f (length (slots u) - suc p) (suc p)) now)

  later_pairs :
      (t : T) (p h : ℕ) (k : K) (v : V)
      → get_elem? (slots t) p ≡ some (h, (k, v))
      → (k, v) ∷ drop (suc p) (pairs H (H.write t p (k, f k v))) ≡ drop p (pairs H t)
  later_pairs t p h k v at =
      let pair : ℕ × (K × V) → K × V = λ e. e.1 in
      let after = ap (map pair) (written t p h k v at) ∙ map-set pair (slots t) p (h, (k, f k v)) in
      ap (λ l. (k, v) ∷ drop (suc p) l) after
      ∙ ap (λ l. (k, v) ∷ l) (drop-set (suc p) p (pairs H t) (k, f k v) (omega arith))
      ∙ sym (drop-get_elem? (pairs H t) p (get_elem?-map pair (slots t) p at))

  give-Moves :
      (s : RwLock T) (p h : ℕ) (k : K) (v : V) {r : Row T} {items : List (K × V)}
      → get_elem? (slots s.data_ptr) p ≡ some (h, (k, v))
      → Fits s (changing p)
      → give_item H f s p (some (h, (k, v))) ≡ done (r, items)
      → MovesTo s (changing p) r items
  unfolding give_item
  give-Moves s p h k v at fits run =
      let t = s.data_ptr in
      let many = ap length (written t p h k v at) ∙ length-set (slots t) p (h, (k, f k v)) in
      let inside = lt_of_get_elem? (slots t) p at in
      moved_to s (changing p)
        (record {
          fits = (fits.0, omega (arith, many, inside));
          rests = ap (λ (u : T). record { raw = 0; data_ptr = u }) (later_turns t p h k v at);
          pays = later_pairs t p h k v at;
          fewer = omega (arith, many, inside);
        })
        run

  finish-Moves :
      (s : RwLock T) (p : ℕ) {r : Row T} {items : List (K × V)}
      → get_elem? (slots s.data_ptr) p ≡ none
      → Fits s (changing p)
      → finish_at H f s none ≡ done (r, items)
      → MovesTo s (changing p) r items
  unfolding finish_at altered_from
  finish-Moves s p out fits run =
      let over = past_end (slots s.data_ptr) p out in
      let none_left : 0 ≡ length (slots s.data_ptr) - p = omega arith in
      let freed : Alone.unlock_exclusive s.raw ≡ 0 =
        ap Alone.unlock_exclusive fits.0 ∙ unlock_exclusive_lem in
      moved_to s (changing p)
        (record {
          fits = tt;
          rests =
              ap (λ (n : ℕ). record { raw = n; data_ptr = s.data_ptr }) freed
              ∙ ap (λ (n : ℕ). changed (altered_from H f n p) s) none_left;
          pays = sym (
              drop_all (pairs H s.data_ptr) p
                (omega (arith, over, length-map (λ (e : ℕ × (K × V)). e.1) (slots s.data_ptr))));
          fewer = omega arith;
        })
        run

  pub occur-Moves :
      (e : Event) (s : RwLock T) (t : Task) {r : Row T} {items : List (K × V)}
      → occur H f e s t ≡ done (r, items)
      → Fits s t
      → MovesTo s t r items
  unfolding occur
  occur-Moves start s unstarted h free =
      let locks : Alone.lock_exclusive s.raw ≡ done one_writer =
        ap Alone.lock_exclusive free
        ∙ lock_exclusive_lem 0 (record { fits = omega arith; no_flags = refl }) in
      moved_to s unstarted (start-Moves s free) (rw (locks, ◌>>=◌) at h)
  occur-Moves give s (changing p) h fits = elim (Option-cases (get_elem? (slots s.data_ptr) p)) [
    | inl out ↦ let bad = rw (out, give_item) at h in cc
    | inr ((n, (k, v)), at) ↦ give-Moves s p n k v at fits (rw at at h)
  ]
  occur-Moves finish s (changing p) h fits = elim (Option-cases (get_elem? (slots s.data_ptr) p)) [
    | inl out ↦ finish-Moves s p out fits (rw out at h)
    | inr (e, at) ↦ let bad = rw (at, finish_at) at h in cc
  ]
  occur-Moves _ s _ h fits = cc
