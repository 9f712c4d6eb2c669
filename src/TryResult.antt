-- ===== src/TryResult.antt =====
-- src/try_result.rs: the result of an access that does not wait.
use dashmap.Base.{Bool, true, false, Option, none, some}
use dashmap.Base.Outcome.{Outcome, done, panicked}

pub data TryResult {ℓ} (R : Type ℓ) : Type ℓ where
  present : R → TryResult R
  absent : TryResult R
  locked : TryResult R

module _ {ℓ} {R : Type ℓ} where
  abbrev pub is_present : TryResult R → Bool
  is_present (present r) = true
  is_present _ = false

  abbrev pub is_absent : TryResult R → Bool
  is_absent absent = true
  is_absent _ = false

  abbrev pub is_locked : TryResult R → Bool
  is_locked locked = true
  is_locked _ = false

  abbrev pub unwrap : TryResult R → Outcome R
  unwrap (present r) = done r
  unwrap locked = panicked
  unwrap absent = panicked

  abbrev pub try_unwrap : TryResult R → Option R
  try_unwrap (present r) = some r
  try_unwrap _ = none
