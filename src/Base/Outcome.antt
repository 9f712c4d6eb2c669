-- ===== src/Base/Outcome.antt =====
-- What a call does: it returns, it waits for a lock that it cannot have, or it panics.
use mathlib.Core.Path.{◌≡◌, refl}
use mathlib.Core.Logic.{◌⊎◌, inl, inr}

pub data Outcome {ℓ} (A : Type ℓ) : Type ℓ where
  done : A → Outcome A
  blocked : Outcome A
  panicked : Outcome A

infixl 5 ◌>>=◌
abbrev pub ◌>>=◌ {ℓ κ} : {A : Type ℓ} {B : Type κ} → Outcome A → (A → Outcome B) → Outcome B
done a >>= f = f a
blocked >>= f = blocked
panicked >>= f = panicked

pub Outcome-cases {ℓ} :
    {A : Type ℓ} (x : Outcome A) → ((a : A) × (x ≡ done a)) ⊎ (x ≡ blocked) ⊎ (x ≡ panicked)
Outcome-cases (done a) = inl (a, refl)
Outcome-cases blocked = inr (inl refl)
Outcome-cases panicked = inr (inr refl)
