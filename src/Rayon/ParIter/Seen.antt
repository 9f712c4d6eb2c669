-- ===== src/Rayon/ParIter/Seen.antt =====
-- The runs of a parallel iterator: what is seen, what is left of the map, and that they end.
use dashmap.Base.{
  ℕ, suc, ◌+◌, ◌*◌, ◌≤◌, ◌≡◌, refl, sym, ◌∙◌, ap, subst, ◌⊎◌, inl, inr, some, List, [], ◌∷◌, ◌++◌,
  map, Permᴰ, All, length, get_elem?, set, total, arith,
}
use mathlib.Core.List.Permᴰ
use dashmap.Base.Outcome.{done, ◌>>=◌}
use dashmap.Key.{Key}
use dashmap.Table.{HashTable}
use dashmap.Map.{RwLock, DashMap}
use dashmap.Map.State.{IsValid, entries}
use dashmap.Map.Loops.{IsReadable}
use dashmap.Map.Iter.{pairs}
use dashmap.Map.Pairs.{Lists, all_pairs, all_pairs-Lists}
use dashmap.Map.Distinct.{Lists-perm}
use dashmap.Rayon.Tasks.{drive}
use dashmap.Rayon.Tasks.Driven.{all_owed, all_left, Driven, drive-Driven}
use dashmap.Rayon.ParIter.{unstarted, closed, Row, Event, par_iter, occur, occur_in}
use dashmap.Rayon.ParIter.Rows.{rest_of, InOrder, owed_in, left_in, occur-Moves, can_occur}

module _ {ℓ} {T K V : Type ℓ} where
  abbrev pub AllClosed : List (Row T K V) → Type ℓ
  AllClosed rows = All (λ r. r.task ≡ closed) rows

  closed-resting :
      (rows : List (Row T K V)) → AllClosed rows → map rest_of rows ≡ map (λ r. r.shard) rows
  closed-resting [] h = refl
  closed-resting (r ∷ rows) h = rw h.0 (ap (λ l. r.shard ∷ l) (closed-resting rows h.1))

module _ {ℓ} {K V : Type ℓ} (H : HashTable (K × V)) where
  open H use {T, slots}

  closed-owed : (rows : List (Row T K V)) → AllClosed rows → all_owed (owed_in H) rows ≡ []
  unfolding all_owed
  closed-owed [] h = refl
  closed-owed (r ∷ rows) h = rw (h.0, closed-owed rows h.1)

  closed-left : (rows : List (Row T K V)) → AllClosed rows → all_left (left_in H) rows ≡ 0
  unfolding all_left total
  closed-left [] h = refl
  closed-left (r ∷ rows) h = rw h.0 (omega (arith, closed-left rows h.1))

  start-owed :
      (ss : List (RwLock T))
      → all_owed (owed_in H) (map (λ s. record { shard = s; task = unstarted }) ss) ≡ all_pairs H ss
  unfolding all_owed all_pairs
  start-owed [] = refl
  start-owed (s ∷ ss) = ap (λ l. pairs H s.data_ptr ++ l) (start-owed ss)

  start-resting :
      (ss : List (RwLock T))
      → map (rest_of {K = K} {V = V}) (map (λ s. record { shard = s; task = unstarted }) ss) ≡ ss
  start-resting [] = refl
  start-resting (s ∷ ss) = ap (λ l. s ∷ l) (start-resting ss)

  start-AllFit :
      (ss : List (RwLock T))
      → All IsReadable ss
      → All (InOrder {K = K} {V = V}) (map (λ s. record { shard = s; task = unstarted }) ss)
  start-AllFit [] h = tt
  start-AllFit (s ∷ ss) h = (record { readable = h.0; holds = tt }, start-AllFit ss h.1)

  start-left :
      (ss : List (RwLock T))
      → all_left (left_in H) (map (λ s. record { shard = s; task = unstarted }) ss)
        ≡ 2 * total (λ s. length (slots s.data_ptr)) ss + 2 * length ss
  unfolding all_left total
  start-left [] = refl
  start-left (s ∷ ss) = omega (arith, start-left ss)

  -- Some event is possible where not every task is done.
  can_drive :
      (rows : List (Row T K V))
      → All InOrder rows
      → AllClosed rows
        ⊎ ((i : ℕ) × (e : Event) × (r : Row T K V) × (r' : Row T K V) × (items : List (K × V))
            × (get_elem? rows i ≡ some r)
            × (occur H e r.shard r.task ≡ done (r', items)))
  can_drive [] h = inl tt
  can_drive (r ∷ rows) h = elim (can_occur H r.shard r.task h.0) [
    | inr (e, r', items, run) ↦ inr (0, e, r, r', items, refl, run)
    | inl done_r ↦ elim (can_drive rows h.1) [
      | inl all ↦ inl (done_r, all)
      | inr (i, e, u, u', items, at, run) ↦ inr (suc i, e, u, u', items, at, run)
    ]
  ]

module _ {ℓ} {K V S : Type ℓ} (key : Key K S) (H : HashTable (K × V)) (m : DashMap H.T S)
    (valid : IsValid key H m) (readable : All IsReadable m.shards) where
  open H use {T, slots}

  par_iter-Driven :
      (events : List (ℕ × Event)) {rows : List (Row T K V)} {items : List (K × V)}
      → drive (occur_in H) events (par_iter m) ≡ done (rows, items)
      → Driven rest_of InOrder (owed_in H) (left_in H) events (par_iter m) rows items
  par_iter-Driven events run =
      drive-Driven rest_of InOrder (owed_in H) (left_in H) (occur_in H)
        (λ e r r' items. occur-Moves H e r.shard r.task) events (par_iter m)
        (start-AllFit H m.shards readable) run

  -- However the tasks of a parallel iterator over a valid map interleave, each of whose locks has
  -- no writer and room for one more reader: once all are done the consumer has been given each key
  -- that the map holds once and no other, with what the map holds under it, and every lock is as it
  -- was.
  pub par_iter_sees :
      (events : List (ℕ × Event)) {rows : List (Row T K V)} {items : List (K × V)}
      → drive (occur_in H) events (par_iter m) ≡ done (rows, items)
      → AllClosed rows
      → Lists key H m items × (map (λ r. r.shard) rows ≡ m.shards)
  par_iter_sees events {rows} {items} run all =
      let d = par_iter-Driven events run in
      let paid =
        subst (λ l. Permᴰ (items ++ l) (all_owed (owed_in H) (par_iter m))) (closed-owed H rows all)
          d.pays in
      let perm =
        subst (λ l. Permᴰ items l) (start-owed H m.shards)
          (Permᴰ.trans (Permᴰ.symm (Permᴰ.append-nil items)) paid) in
      (
        Lists-perm key H m perm (all_pairs-Lists key H m valid),
        sym (closed-resting rows all) ∙ d.rests ∙ start-resting H m.shards,
      )

  -- No run of a parallel iterator over a valid map, each of whose locks has no writer and room for
  -- one more reader, gets stuck before all tasks are done: some event
  -- is possible. A run has two events for each entry and two for each shard when it is done, and
  -- never more.
  pub par_iter_ends :
      (events : List (ℕ × Event)) {rows : List (Row T K V)} {items : List (K × V)}
      → drive (occur_in H) events (par_iter m) ≡ done (rows, items)
      → (AllClosed rows
          ⊎ ((i : ℕ) × (e : Event) × (rows' : List (Row T K V)) × (more : List (K × V)) × (drive
                  (occur_in H)
                  ((i, e) ∷ [])
                  rows
                ≡ done (rows', more))))
        × (length events ≤ 2 * entries key H m + 2 * length m.shards)
        × (AllClosed rows → length events ≡ 2 * entries key H m + 2 * length m.shards)
  unfolding drive entries
  par_iter_ends events {rows} run =
      let d = par_iter-Driven events run in
      let count = start-left H m.shards in
      (
        elim (can_drive H rows d.fits) [
          | inl all ↦ inl all
          | inr (i, e, r, r', more, at, goes) ↦
              inr (i, e, set rows i r', more ++ [], rw (drive, at, goes, ◌>>=◌))
        ],
        omega (arith, d.fewer, count),
        λ all. omega (arith, d.fewer, count, closed-left H rows all),
      )
