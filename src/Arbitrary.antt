-- ===== src/Arbitrary.antt =====
-- src/arbitrary.rs: a map of arbitrary entries. The source of randomness is not part of the
-- repository: here it is any `arbitrary_iter`.
use dashmap.Base.{ℕ, ◌≤◌, ◌^◌, ◌≡◌, refl, Option, none, some, List, [], ◌∷◌}
use dashmap.Base.Outcome.{Outcome, done, ◌>>=◌}
use dashmap.Key.{Key}
use dashmap.Table.{HashTable}
use dashmap.Map.{DashMap}
use dashmap.Map.Making.{from_iter}
use dashmap.Serde.{Result, ok, err}
use dashmap.Map.Building.{Holds, from_iter_lem}
use dashmap.Serde.Reading.{result}

-- The entries up to the first error, and that error: what `collect` into a `Result` hands on.
abbrev pub up_to_error {ℓ} : {E A : Type ℓ} → List (Result E A) → List A × Option E
up_to_error [] = ([], none)
up_to_error (err e ∷ rs) = ([], some e)
up_to_error (ok a ∷ rs) = (a ∷ (up_to_error rs).0, (up_to_error rs).1)

module _ {ℓ} {E K V S U : Type ℓ} (key : Key K S) (H : HashTable (K × V))
    (arbitrary_iter : U → Result E (List (Result E (K × V)))) where
  open H use {T, slots}

  unfoldable pub arbitrary : Option ℕ → S → U → Outcome (Result E (DashMap T S))
  unfolding from_iter
  arbitrary parallelism default_hasher u = elim (arbitrary_iter u) [
    | err e ↦ done (err e)
    | ok items ↦ do
      m ← from_iter key H parallelism default_hasher (up_to_error items).0
      elim (up_to_error items).1 [ none ↦ done (ok m) | some e ↦ done (err e) ]
  ]

  -- `arbitrary`, where the number of processors is known and at most 2 ^ 61, returns the error of the
  -- source or of the first entry that has one, and else a map with no lock held that holds what the
  -- entries, inserted one after another into an empty one, leave.
  pub arbitrary_lem :
      (parallelism : ℕ) (hasher : S) (u : U) {items : List (Result E (K × V))}
      → 1 ≤ parallelism
      → parallelism ≤ 2 ^ 61
      → arbitrary_iter u ≡ ok items
      → (m : DashMap T S) × (arbitrary (some parallelism) hasher u
          ≡ done (result (up_to_error items).1 m))
        × Holds key H (up_to_error items).0 m
  unfolding arbitrary
  arbitrary_lem parallelism hasher u {items} low high gives =
      let (m, run, holds) = from_iter_lem key H parallelism hasher low high (up_to_error items).0 in
      (m, rw (arbitrary, gives, run, ◌>>=◌) (of (up_to_error items).1 m), holds)
    where
      of :
          (end : Option E) (m : DashMap T S)
          → ◌≡◌ {A = Outcome (Result E (DashMap T S))}
              (elim end [ none ↦ done (ok m) | some e ↦ done (err e) ])
              (done (result end m))
      of none m = refl
      of (some e) m = refl
