-- ===== src/Table/Entries.antt =====
-- The entries of a table as a list: what is found under a key, and how often.
use dashmap.Base.{
  ℕ, zero, suc, ◌+◌, ◌≤◌, ◌≡◌, refl, ◌∙◌, ap, sym, true, false, Option, none, some, List, [], ◌∷◌,
  Permᴰ, All, subst, length, get_elem?, set, if◌then◌else◌, to_nat, arith,
}
use dashmap.Key.{Key, equal_congr_right}

module _ {ℓ} {K V S : Type ℓ} (key : Key K S) where
  unfoldable pub lookup : K → List (ℕ × (K × V)) → Option (K × V)
  lookup q [] = none
  lookup q ((h, (k, v)) ∷ xs) = if key.equal q k then some (k, v) else lookup q xs

  unfoldable pub count : K → List (ℕ × (K × V)) → ℕ
  count q [] = 0
  count q ((h, (k, v)) ∷ xs) = to_nat (key.equal q k) + count q xs

  pub count-perm : (q : K) {xs ys : List (ℕ × (K × V))} → Permᴰ xs ys → count q xs ≡ count q ys
  unfolding count
  count-perm q Permᴰ.nil = refl
  count-perm q (Permᴰ.cons e p) = rw (e, count-perm q p)
  count-perm q (Permᴰ.swap e f) = rw (e, f) (omega arith)
  count-perm q (Permᴰ.trans p r) = count-perm q p ∙ count-perm q r

  pub lookup-eq-none : (q : K) (xs : List (ℕ × (K × V))) → count q xs ≡ 0 → lookup q xs ≡ none
  unfolding count lookup
  lookup-eq-none q [] h = refl
  lookup-eq-none q ((n, (k, v)) ∷ xs) h = ground (arith, lookup-eq-none q xs)

  pub count-eq-zero : (q : K) (xs : List (ℕ × (K × V))) → lookup q xs ≡ none → count q xs ≡ 0
  unfolding count lookup
  count-eq-zero q [] h = refl
  count-eq-zero q ((n, (k, v)) ∷ xs) h = ground (arith, count-eq-zero q xs)

  -- A reordering does not change what is found under a key that is there once.
  pub lookup-perm :
      (q : K) {xs ys : List (ℕ × (K × V))}
      → Permᴰ xs ys
      → count q xs ≤ 1
      → lookup q xs ≡ lookup q ys
  unfolding count lookup
  lookup-perm q Permᴰ.nil h = refl
  lookup-perm q (Permᴰ.cons {a = (n, (k, v))} e p) h = rw (sym e) (ground (arith, lookup-perm q p))
  lookup-perm q (Permᴰ.swap {a = (n, (k, v))} {b = (m, (j, u))} e f) h =
      rw (sym e, sym f) (ground arith)
  lookup-perm q (Permᴰ.trans p r) h =
      lookup-perm q p h ∙ lookup-perm q r (omega (arith, count-perm q p))

  pub count_at :
      (q : K) (xs : List (ℕ × (K × V))) (i n : ℕ) (k : K) (v : V)
      → get_elem? xs i ≡ some (n, (k, v))
      → key.equal q k ≡ true
      → 1 ≤ count q xs
  unfolding count
  count_at q [] i n k v at e = cc
  count_at q ((m, (j, u)) ∷ xs) zero n k v at e = ground arith
  count_at q ((m, (j, u)) ∷ xs) (suc i) n k v at e = omega (arith, count_at q xs i n k v at e)

  -- An entry under a key that is there once is what the key finds.
  pub lookup_at :
      (q : K) (xs : List (ℕ × (K × V))) (i n : ℕ) (k : K) (v : V)
      → get_elem? xs i ≡ some (n, (k, v))
      → key.equal q k ≡ true
      → count q xs ≤ 1
      → lookup q xs ≡ some (k, v)
  unfolding count lookup
  lookup_at q [] i n k v at e h = cc
  lookup_at q ((m, (j, u)) ∷ xs) zero n k v at e h = ground arith
  lookup_at q ((m, (j, u)) ∷ xs) (suc i) n k v at e h =
      ground (arith, lookup_at q xs i n k v, count_at q xs i n k v)

  pub lookup_absent :
      (q : K) (xs : List (ℕ × (K × V)))
      → ((i : ℕ) (e : ℕ × (K × V)) → get_elem? xs i ≡ some e → key.equal q e.1.0 ≡ false)
      → lookup q xs ≡ none
  unfolding lookup
  lookup_absent q [] h = refl
  lookup_absent q ((n, (k, v)) ∷ xs) h =
      rw (h 0 (n, (k, v)) refl) (lookup_absent q xs (λ i e at. h (suc i) e at))

  -- An overwritten entry keeps its place among the keys.
  pub count-set :
      (q : K) (xs : List (ℕ × (K × V))) (i n m : ℕ) (k j : K) (v u : V)
      → get_elem? xs i ≡ some (n, (k, v))
      → key.equal k j ≡ true
      → count q (set xs i (m, (j, u))) ≡ count q xs
  unfolding count
  count-set q [] i n m k j v u at e = cc
  count-set q ((n', (k', v')) ∷ xs) zero n m k j v u at e =
      ground (arith, equal_congr_right key q k j)
  count-set q ((n', (k', v')) ∷ xs) (suc i) n m k j v u at e =
      omega (arith, count-set q xs i n m k j v u at e)

  pub lookup-set :
      (q : K) (xs : List (ℕ × (K × V))) (i n m : ℕ) (k j : K) (v u : V)
      → get_elem? xs i ≡ some (n, (k, v))
      → key.equal k j ≡ true
      → count q xs ≤ 1
      → lookup q (set xs i (m, (j, u))) ≡ (if key.equal q k then some (j, u) else lookup q xs)
  unfolding count lookup
  lookup-set q [] i n m k j v u at e h = cc
  lookup-set q ((n', (k', v')) ∷ xs) zero n m k j v u at e h =
      ground (arith, equal_congr_right key q k j)
  lookup-set q ((n', (k', v')) ∷ xs) (suc i) n m k j v u at e h =
      ground (arith, lookup-set q xs i n m k j v u, count_at q xs i n k v)

-- What a reordering keeps, whatever the entries are.
module _ {ℓ} {A : Type ℓ} where
  pub length-perm : {xs ys : List A} → Permᴰ xs ys → length xs ≡ length ys
  length-perm Permᴰ.nil = refl
  length-perm (Permᴰ.cons e p) = ap suc (length-perm p)
  length-perm (Permᴰ.swap e f) = refl
  length-perm (Permᴰ.trans p r) = length-perm p ∙ length-perm r

  pub All-perm {κ} : (P : A → Type κ) {xs ys : List A} → Permᴰ xs ys → All P ys → All P xs
  All-perm P Permᴰ.nil h = h
  All-perm P (Permᴰ.cons e p) h = (subst P (sym e) h.0, All-perm P p h.1)
  All-perm P (Permᴰ.swap e f) h = (subst P (sym e) h.1.0, (subst P (sym f) h.0, h.1.1))
  All-perm P (Permᴰ.trans p r) h = All-perm P p (All-perm P r h)

  pub All-set {κ} :
      (P : A → Type κ) (xs : List A) (i : ℕ) (a : A) → All P xs → P a → All P (set xs i a)
  All-set P [] i a h p = h
  All-set P (x ∷ xs) zero a h p = (p, h.1)
  All-set P (x ∷ xs) (suc i) a h p = (h.0, All-set P xs i a h.1 p)
