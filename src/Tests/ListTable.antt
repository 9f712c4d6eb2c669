-- ===== src/Tests/ListTable.antt =====
-- The simplest table that does what `hashbrown::HashTable` promises: a list with a capacity.
use dashmap.Base.{
  ℕ, zero, suc, ◌+◌, ◌≤◌, ◌≡◌, refl, ap, subst, Bool, true, false, ◌&&◌, Option, none, some, List,
  [], ◌∷◌, Permᴰ, length, get_elem?, set, if◌then◌else◌, ◌==◌, arith,
}
use mathlib.Core.Option
use mathlib.Core.List.Permᴰ
use dashmap.Table.{HashTable, kept}

module _ {ℓ} {A : Type ℓ} where
  -- the first entry with this hash that the closure accepts
  abbrev search : List (ℕ × A) → ℕ → (A → Bool) → Option ℕ
  search [] h eq = none
  search ((n, a) ∷ xs) h eq = if (n == h) && eq a then some 0 else Option.map suc (search xs h eq)

  abbrev delete : List (ℕ × A) → ℕ → List (ℕ × A)
  delete [] i = []
  delete (x ∷ xs) zero = xs
  delete (x ∷ xs) (suc i) = x ∷ delete xs i

  abbrev overwrite : List (ℕ × A) → ℕ → A → List (ℕ × A)
  overwrite [] i b = []
  overwrite ((n, a) ∷ xs) zero b = (n, b) ∷ xs
  overwrite (x ∷ xs) (suc i) b = x ∷ overwrite xs i b

  pub search-some :
      (xs : List (ℕ × A)) (h : ℕ) (eq : A → Bool) (i : ℕ)
      → search xs h eq ≡ some i
      → (e : ℕ × A) × (get_elem? xs i ≡ some e) × (eq e.1 ≡ true)
  search-some [] h eq i e = cc
  search-some ((n, a) ∷ xs) h eq zero e = ((n, a), refl, ground arith)
  search-some ((n, a) ∷ xs) h eq (suc i) e = search-some xs h eq i (ground arith)

  pub search-none :
      (xs : List (ℕ × A)) (h : ℕ) (eq : A → Bool)
      → search xs h eq ≡ none
      → (i : ℕ) (a : A) → get_elem? xs i ≡ some (h, a)
      → eq a ≡ false
  search-none [] h eq e i a at = cc
  search-none ((n, b) ∷ xs) h eq e zero a at = ground arith
  search-none ((n, b) ∷ xs) h eq e (suc i) a at = search-none xs h eq (ground arith) i a at

  pub overwrite_lem :
      (xs : List (ℕ × A)) (i h : ℕ) (a b : A)
      → get_elem? xs i ≡ some (h, a)
      → overwrite xs i b ≡ set xs i (h, b)
  overwrite_lem [] i h a b at = cc
  overwrite_lem ((n, c) ∷ xs) zero h a b at = ground arith
  overwrite_lem (x ∷ xs) (suc i) h a b at = ap (λ l. x ∷ l) (overwrite_lem xs i h a b at)

  pub delete_perm :
      (xs : List (ℕ × A)) (i : ℕ) (e : ℕ × A) → get_elem? xs i ≡ some e → Permᴰ (e ∷ delete xs i) xs
  delete_perm [] i e at = cc
  delete_perm (x ∷ xs) zero e at = Permᴰ.cons (cc) (Permᴰ.refl xs)
  delete_perm (x ∷ xs) (suc i) e at =
      Permᴰ.trans (Permᴰ.swap refl refl) (Permᴰ.cons refl (delete_perm xs i e at))

pub reserved :
    {A : Type 0} (t : ℕ × List (ℕ × A)) (n : ℕ) (u : ℕ × List (ℕ × A))
    → some (t.0 + n, t.1) ≡ some u
    → Permᴰ u.1 t.1 × (length t.1 + n ≤ u.0 + length u.1)
reserved {A} t n u e =
    let same : (t.0 + n, t.1) ≡ u = cc in
    subst (λ (r : ℕ × List (ℕ × A)). Permᴰ r.1 t.1 × (length t.1 + n ≤ r.0 + length r.1)) same
      (Permᴰ.refl t.1, omega arith)

abbrev pub list_table : {A : Type 0} → HashTable A
list_table {A} = record {
  T = ℕ × List (ℕ × A);
  slots = λ t. t.1;
  with_capacity = λ n. (n, []);
  find = λ t h eq. search t.1 h eq;
  insert = λ t h a _. ((t.0, (h, a) ∷ t.1), 0);
  write = λ t i b. (t.0, overwrite t.1 i b);
  remove = λ t i. (t.0, delete t.1 i);
  retain = λ t f. (t.0, kept f t.1);
  capacity = λ t. t.0 + length t.1;
  shrink_to = λ t n _. (n, t.1);
  try_reserve = λ t n _. some (t.0 + n, t.1);
  slots-with_capacity = λ n. refl;
  find-some = λ t. search-some t.1;
  find-none = λ t. search-none t.1;
  slots-insert = λ t h a _ _ _. Permᴰ.refl ((h, a) ∷ t.1);
  insert-at = λ t h a _. refl;
  slots-write = λ t. overwrite_lem t.1;
  slots-remove = λ t. delete_perm t.1;
  slots-retain = λ t f. Permᴰ.refl (kept f t.1);
  length-le-capacity = λ t. omega arith;
  le-capacity-with_capacity = λ n. omega arith;
  slots-shrink_to = λ t n _ _. Permᴰ.refl t.1;
  slots-try_reserve = λ t n _ u _. reserved t n u;
}
