-- ===== src/Concurrent/Abstract.antt =====
-- What the operations on one key promise: a map is a function from keys to pairs, and a call is one
-- change of it.
pub mod Replies
pub mod Refines
use dashmap.Base.{
  ℕ, Bool, Option, none, some, List, [], ◌∷◌, get_elem?, set, is_some, if◌then◌else◌,
}
use mathlib.Core.Option
use dashmap.Key.{Key}
use dashmap.Map.Access.Removing.{taken_by, left_by}
use dashmap.Concurrent.{
  Call, get, contains_key, insert, remove, remove_if, remove_if_mut, alter, Reply, pair, value,
  flag, nothing, Thread, outside,
}

-- what a map holds under each key
abbrev pub Holdings {ℓ} : Type ℓ → Type ℓ → Type ℓ
Holdings K V = K → Option (K × V)

-- the key that is stored where there is one, and else this one
abbrev pub stored_key {ℓ} : {K V : Type ℓ} → K → Option (K × V) → K
stored_key k none = k
stored_key k (some e) = e.0

module _ {ℓ} {K V S : Type ℓ} (key : Key K S) where
  -- the same with `x` under `k`
  abbrev pub with_under : K → Option (K × V) → Holdings K V → Holdings K V
  with_under k x g q = if key.equal q k then x else g q

  unfoldable pub specified : Call K V → Holdings K V → Reply K V × Holdings K V
  specified (get k) g = (pair (g k), g)
  specified (contains_key k) g = (flag (is_some (g k)), g)
  specified (insert k v) g =
      (value (Option.map (λ e. e.1) (g k)), with_under k (some (stored_key k (g k), v)) g)
  specified (remove k) g = (pair (g k), with_under k none g)
  specified (remove_if k f) g =
      let f' : K → V → Bool × V = λ j v. (f j v, v) in
      (pair (taken_by f' (g k)), with_under k (left_by f' (g k)) g)
  specified (remove_if_mut k f) g = (pair (taken_by f (g k)), with_under k (left_by f (g k)) g)
  specified (alter k f) g = (nothing, with_under k (Option.map (λ e. (e.0, f e.0 e.1)) (g k)) g)

  -- the next call of a thread
  unfoldable pub spec_next :
      {T : Type ℓ} → Thread T K V → Holdings K V → Option (Thread T K V × Holdings K V)
  unfolding specified
  spec_next (outside (c ∷ cs) rs) g = let (r, g') = specified c g in some (outside cs (r ∷ rs), g')
  spec_next _ g = none

  -- Calls of the threads with these numbers, in this order.
  unfoldable pub by_spec :
      {T : Type ℓ}
      → List ℕ
      → Holdings K V
      → List (Thread T K V)
      → Option (Holdings K V × List (Thread T K V))
  unfolding spec_next
  by_spec [] g ws = some (g, ws)
  by_spec (i ∷ turns) g ws = elim (get_elem? ws i) [
    | none ↦ none
    | some w ↦ elim (spec_next w g) [ none ↦ none | some (w', g') ↦ by_spec turns g' (set ws i w') ]
  ]
