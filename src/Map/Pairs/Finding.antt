-- ===== src/Map/Pairs/Finding.antt =====
-- What a key finds among pairs, and how often.
use dashmap.Base.{
  ℕ, ◌+◌, ◌≤◌, ◌≡◌, refl, inl, inr, Option, none, some, List, [], ◌∷◌, ◌++◌, map, arith,
  if◌then◌else◌, to_nat, Bool-cases,
}
use dashmap.Key.{Key}
use dashmap.Table.Entries.{lookup, count}
use dashmap.Map.Tables.{found}

module _ {ℓ} {A : Type ℓ} where
  abbrev pub or_else : Option A → Option A → Option A
  or_else none y = y
  or_else (some a) y = some a

  pub or_else-none : (x y : Option A) → y ≡ none → or_else x y ≡ x
  or_else-none none y e = e
  or_else-none (some a) y e = refl

module _ {ℓ} {K V S : Type ℓ} (key : Key K S) where
  -- what a key finds among pairs
  unfoldable pub find_pair : K → List (K × V) → Option (K × V)
  find_pair q [] = none
  find_pair q (e ∷ es) = if key.equal q e.0 then some e else find_pair q es

  -- how many of the pairs have a key equal to this one
  unfoldable pub count_pairs : K → List (K × V) → ℕ
  count_pairs q [] = 0
  count_pairs q (e ∷ es) = to_nat (key.equal q e.0) + count_pairs q es

  pub find_pair-append :
      (q : K) (xs ys : List (K × V))
      → find_pair q (xs ++ ys) ≡ or_else (find_pair q xs) (find_pair q ys)
  unfolding find_pair
  find_pair-append q [] ys = refl
  find_pair-append q (x ∷ xs) ys = elim (Bool-cases (key.equal q x.0)) [
    | inl same ↦ rw same
    | inr differ ↦ rw differ (find_pair-append q xs ys)
  ]

  pub count_pairs-append :
      (q : K) (xs ys : List (K × V))
      → count_pairs q (xs ++ ys) ≡ count_pairs q xs + count_pairs q ys
  unfolding count_pairs
  count_pairs-append q [] ys = omega arith
  count_pairs-append q (x ∷ xs) ys = omega (arith, count_pairs-append q xs ys)

  pub find_pair-slots :
      (q : K) (xs : List (ℕ × (K × V))) → find_pair q (map (λ e. e.1) xs) ≡ lookup key q xs
  unfolding find_pair lookup
  find_pair-slots q [] = refl
  find_pair-slots q ((h, (k, v)) ∷ xs) = rw (find_pair-slots q xs)

  pub count_pairs-slots :
      (q : K) (xs : List (ℕ × (K × V))) → count_pairs q (map (λ e. e.1) xs) ≡ count key q xs
  unfolding count_pairs count
  count_pairs-slots q [] = refl
  count_pairs-slots q ((h, (k, v)) ∷ xs) = rw (count_pairs-slots q xs)

  pub find_pair-eq-none : (q : K) (xs : List (K × V)) → count_pairs q xs ≡ 0 → find_pair q xs ≡ none
  unfolding find_pair count_pairs
  find_pair-eq-none q [] h = refl
  find_pair-eq-none q (x ∷ xs) h = ground (arith, find_pair-eq-none q xs)

  -- A key that is there at most once is there as often as it is found.
  pub count-found :
      (q : K) (xs : List (ℕ × (K × V)))
      → count key q xs ≤ 1
      → count key q xs ≡ found (lookup key q xs)
  unfolding lookup count
  count-found q [] once = refl
  count-found q ((h, (k, v)) ∷ xs) once = ground (arith, count-found q xs)
