-- ===== src/Base/Totals.antt =====
-- Weighted sums over a list, and how a write to one place changes them.
use Prim.Native.Nat.{ℕ, zero, suc, ◌+◌, ◌≤◌}
use mathlib.Core.Path.{◌≡◌, refl, ap}
use mathlib.Core.Logic.{◌≢◌}
use mathlib.Core.List.{List, [], ◌∷◌, ◌++◌}
use mathlib.Core.Option.{some}
use native.Mathlib.Omega.{arith}
use dashmap.Base.Lists.{length, get_elem?, set, replicate}

module _ {ℓ} {A : Type ℓ} (w : A → ℕ) where
  unfoldable pub total : List A → ℕ
  total [] = 0
  total (x ∷ xs) = w x + total xs

  pub total-set :
      (xs : List A) (i : ℕ) (a : A) {x : A}
      → get_elem? xs i ≡ some x
      → total (set xs i a) + w x ≡ total xs + w a
  unfolding total
  total-set [] i a h = cc
  total-set (y ∷ xs) zero a h = ground arith
  total-set (y ∷ xs) (suc i) a h = omega (arith, total-set xs i a h)

  pub le-total : (xs : List A) (i : ℕ) {x : A} → get_elem? xs i ≡ some x → w x ≤ total xs
  unfolding total
  le-total [] i h = cc
  le-total (y ∷ xs) zero h = ground arith
  le-total (y ∷ xs) (suc i) h = omega (arith, le-total xs i h)

  -- Two places weigh no more than the whole.
  pub add-le-total :
      (xs : List A) (i j : ℕ) {x y : A}
      → get_elem? xs i ≡ some x
      → get_elem? xs j ≡ some y
      → i ≢ j
      → w x + w y ≤ total xs
  unfolding total
  add-le-total [] i j p q ne = cc
  add-le-total (z ∷ xs) zero zero p q ne = absurd (ne refl)
  add-le-total (z ∷ xs) zero (suc j) p q ne = ground (arith, le-total xs j q)
  add-le-total (z ∷ xs) (suc i) zero p q ne = ground (arith, le-total xs i p)
  add-le-total (z ∷ xs) (suc i) (suc j) p q ne =
      omega (arith, add-le-total xs i j p q (λ e. ne (ap suc e)))

  pub total-append : (xs ys : List A) → total (xs ++ ys) ≡ total xs + total ys
  unfolding total
  total-append [] ys = omega arith
  total-append (x ∷ xs) ys = omega (arith, total-append xs ys)

  pub total-replicate : (n : ℕ) (a : A) → w a ≡ 0 → total (replicate n a) ≡ 0
  unfolding total
  total-replicate zero a h = refl
  total-replicate (suc n) a h = omega (arith, total-replicate n a h)

  pub total-le : ((a : A) → w a ≤ 1) → (xs : List A) → total xs ≤ length xs
  unfolding total
  total-le small [] = omega arith
  total-le small (x ∷ xs) = omega (arith, small x, total-le small xs)
