-- ===== src/Rayon/Tasks/Driven.antt =====
-- What a run of events does to the shards and their tasks, from what each event does to one.
use dashmap.Base.{
  ℕ, zero, suc, ◌+◌, ◌≡◌, refl, sym, ◌∙◌, ap, subst, inl, inr, Option-cases, some, List, [], ◌∷◌,
  ◌++◌, map, Permᴰ, All, All-get_elem?, length, get_elem?, set, set_same, map-set, get_elem?-map,
  total, total-set, arith,
}
use mathlib.Core.List.Permᴰ
use mathlib.Core.List.{append_assoc}
use dashmap.Base.Outcome.{Outcome, Outcome-cases, done, ◌>>=◌}
use dashmap.Table.Entries.{All-set}
use dashmap.Rayon.Tasks.{drive}

module _ {ℓ} {A : Type ℓ} where
  append_swap : (xs ys zs : List A) → Permᴰ (xs ++ (ys ++ zs)) (ys ++ (xs ++ zs))
  append_swap [] ys zs = Permᴰ.refl (ys ++ zs)
  append_swap (x ∷ xs) ys zs =
      Permᴰ.trans (Permᴰ.cons refl (append_swap xs ys zs))
        (Permᴰ.symm (Permᴰ.middle x ys (xs ++ zs)))

module _ {ℓ} {R I : Type ℓ} (owed : R → List I) where
  unfoldable pub all_owed : List R → List I
  all_owed [] = []
  all_owed (r ∷ rows) = owed r ++ all_owed rows

  all_owed-set :
      (rows : List R) (i : ℕ) (r' : R) (items : List I) {r : R}
      → get_elem? rows i ≡ some r
      → items ++ owed r' ≡ owed r
      → Permᴰ (items ++ all_owed (set rows i r')) (all_owed rows)
  unfolding all_owed
  all_owed-set [] i r' items at pays = cc
  all_owed-set (x ∷ rows) zero r' items {r} at pays =
      let same : r ≡ x = cc in
      let joined =
        sym (append_assoc items (owed r') (all_owed rows))
        ∙ ap (λ l. l ++ all_owed rows) (pays ∙ ap (λ y. owed y) same) in
      subst (λ l. Permᴰ l (owed x ++ all_owed rows)) (sym joined) (Permᴰ.refl _)
  all_owed-set (x ∷ rows) (suc i) r' items at pays =
      Permᴰ.trans (append_swap items (owed x) (all_owed (set rows i r')))
        (Permᴰ.append_left (owed x) (all_owed-set rows i r' items at pays))

module _ {ℓ} {R : Type ℓ} (left : R → ℕ) where
  unfoldable pub all_left : List R → ℕ
  all_left rows = total left rows

module _ {ℓ} {R I X : Type ℓ} (rest_of : R → X) (Fits : R → Type 0) (owed : R → List I)
    (left : R → ℕ) where
  -- An event gives what it takes from what is owed, leaves the shard as it is at rest, and brings
  -- the task nearer to its end.
  pub record Moves (r r' : R) (items : List I) : Type ℓ where
    pub fits : Fits r'
    pub rests : rest_of r' ≡ rest_of r
    pub pays : items ++ owed r' ≡ owed r
    pub fewer : left r ≡ suc (left r')

  pub moved :
      (r : R) {r₁ r₂ : R} {items items' : List I}
      → Moves r r₁ items
      → ◌≡◌ {A = Outcome (R × List I)} (done (r₁, items)) (done (r₂, items'))
      → Moves r r₂ items'
  moved r {r₁} {r₂} {items} {items'} x h =
      let same_r : r₁ ≡ r₂ = cc in
      let same_items : items ≡ items' = cc in
      subst (λ y. Moves r y items') same_r (subst (λ y. Moves r r₁ y) same_items x)

module _ {ℓ} {R I X : Type ℓ} {E : Type 0} (rest_of : R → X) (Fits : R → Type 0) (owed : R → List I)
    (left : R → ℕ) where
  -- What a run does: it gives what it takes from what is owed, and leaves the shards as they are at
  -- rest.
  pub record Driven (events : List (ℕ × E)) (rows rows' : List R) (items : List I) : Type ℓ where
    pub fits : All Fits rows'
    pub rests : map rest_of rows' ≡ map rest_of rows
    pub pays : Permᴰ (items ++ all_owed owed rows') (all_owed owed rows)
    pub fewer : length events + all_left left rows' ≡ all_left left rows

  driven :
      (events : List (ℕ × E)) {rows r r' : List R} {items items' : List I}
      → Driven events rows r items
      → ◌≡◌ {A = Outcome (List R × List I)} (done (r, items)) (done (r', items'))
      → Driven events rows r' items'
  driven events {rows} {r = r} {r'} {items} {items'} x h =
      let same_r : r ≡ r' = cc in
      let same_items : items ≡ items' = cc in
      subst (λ y. Driven events rows y items') same_r
        (subst (λ y. Driven events rows r y) same_items x)

  -- an event, and a run after it
  first_then :
      (i : ℕ) (e : E) (events : List (ℕ × E)) (rows : List R) {r r' : R} {first rest : List I}
      {after : List R}
      → All Fits rows
      → get_elem? rows i ≡ some r
      → Moves rest_of Fits owed left r r' first
      → Driven events (set rows i r') after rest
      → Driven ((i, e) ∷ events) rows after (first ++ rest)
  unfolding all_left
  first_then i e events rows {r} {r'} {first} {rest} {after} fits at x ih = record {
    fits = ih.fits;
    rests =
        ih.rests
        ∙ map-set rest_of rows i r'
        ∙ ap (set (map rest_of rows) i) x.rests
        ∙ set_same (map rest_of rows) i _ (get_elem?-map rest_of rows i at);
    pays =
        subst (λ l. Permᴰ l (all_owed owed rows))
          (sym (append_assoc first rest (all_owed owed after)))
          (Permᴰ.trans (Permᴰ.append_left first ih.pays)
            (all_owed-set owed rows i r' first at x.pays));
    fewer = omega (arith, ih.fewer, x.fewer, total-set left rows i r' at);
  }

module _ {ℓ} {R I X : Type ℓ} {E : Type 0} (rest_of : R → X) (Fits : R → Type 0) (owed : R → List I)
    (left : R → ℕ) (occur : E → R → Outcome (R × List I))
    (moves : (e : E) (r r' : R) (items : List I)
      → occur e r ≡ done (r', items)
      → Fits r
      → Moves rest_of Fits owed left r r' items) where
  pub drive-Driven :
      (events : List (ℕ × E)) (rows : List R) {rows' : List R} {items : List I}
      → All Fits rows
      → drive occur events rows ≡ done (rows', items)
      → Driven rest_of Fits owed left events rows rows' items
  unfolding drive
  drive-Driven [] rows fits h =
      driven rest_of Fits owed left []
        (record {
          fits = fits;
          rests = refl;
          pays = Permᴰ.refl (all_owed owed rows);
          fewer = omega arith;
        })
        h
  drive-Driven ((i, e) ∷ events) rows {rows'} {items} fits h =
      elim (Option-cases (get_elem? rows i)) [
        | inl out ↦ let bad = rw (drive, out) at h in cc
        | inr (r, at) ↦ elim (Outcome-cases (occur e r)) [
          | inr (inl waits) ↦ let bad = rw (drive, at, waits, ◌>>=◌) at h in cc
          | inr (inr panics) ↦ let bad = rw (drive, at, panics, ◌>>=◌) at h in cc
          | inl ((r', first), run) ↦ elim (Outcome-cases (drive occur events (set rows i r'))) [
            | inr (inl waits) ↦ let bad = rw (drive, at, run, ◌>>=◌, waits) at h in cc
            | inr (inr panics) ↦ let bad = rw (drive, at, run, ◌>>=◌, panics) at h in cc
            | inl ((after, rest), later) ↦
                let now = rw (drive, at, run, ◌>>=◌, later) at h in
                let x = moves e r r' first run (All-get_elem? Fits rows i fits at) in
                let ih =
                  drive-Driven events (set rows i r') (All-set Fits rows i r' fits x.fits) later in
                driven rest_of Fits owed left ((i, e) ∷ events) {rows = rows}
                  (first_then rest_of Fits owed left i e events rows fits at x ih) now
          ]
        ]
      ]
