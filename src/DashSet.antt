-- ===== src/DashSet.antt =====
-- src/set.rs, src/iter_set.rs and src/setref: the set of keys is the map with the unit for values.
pub mod Members
use dashmap.Base.{ℕ, Bool, true, false, not, Option, none, some, List, [], ◌∷◌, map, is_some}
use mathlib.Core.Option
use dashmap.Base.Outcome.{Outcome, done, ◌>>=◌}
use dashmap.Key.{Key}
use dashmap.Table.{HashTable}
use dashmap.Clone.{Clone}
use dashmap.Map
use dashmap.Map.Access
use dashmap.Map.Entry
use dashmap.Map.Whole
use dashmap.Map.Making
use dashmap.Map.Iter

pub record DashSet {ℓ} (T S : Type ℓ) : Type ℓ where
  pub inner : Map.DashMap T S

-- `Ref` and `RefMulti`
pub record Ref {ℓ} (K : Type ℓ) : Type ℓ where
  pub inner : Map.Ref K (Unit {ℓ})

pub record RefMulti {ℓ} (K : Type ℓ) : Type ℓ where
  pub inner : Iter.RefMulti K (Unit {ℓ})

module _ {ℓ} {K : Type ℓ} where
  -- `key` and `deref`
  abbrev pub key_of : Ref K → K
  key_of r = r.inner.k

  abbrev pub key_of_multi : RefMulti K → K
  key_of_multi r = r.inner.k

module _ {ℓ} {K S : Type ℓ} (key : Key K S) (H : HashTable (K × Unit {ℓ})) where
  open H use {T, slots}

  unfoldable pub with_capacity_and_hasher : Option ℕ → ℕ → S → Outcome (DashSet T S)
  with_capacity_and_hasher parallelism capacity hasher = do
    m ← Making.with_capacity_and_hasher key H parallelism capacity hasher
    done (record { inner = m })

  unfoldable pub with_hasher : Option ℕ → S → Outcome (DashSet T S)
  unfolding with_capacity_and_hasher
  with_hasher parallelism hasher = with_capacity_and_hasher parallelism 0 hasher

  -- with a hasher of `RandomState`, and `default` with the hasher of `S: Default`
  unfoldable pub new : S → Option ℕ → Outcome (DashSet T S)
  unfolding with_hasher
  new random_state parallelism = with_hasher parallelism random_state

  unfoldable pub with_capacity : S → Option ℕ → ℕ → Outcome (DashSet T S)
  unfolding with_capacity_and_hasher
  with_capacity random_state parallelism capacity =
      with_capacity_and_hasher parallelism capacity random_state

  unfoldable pub default : Option ℕ → S → Outcome (DashSet T S)
  unfolding with_hasher
  default parallelism default_hasher = with_hasher parallelism default_hasher

  unfoldable pub clone : Clone key H → DashSet T S → Outcome (DashSet T S × DashSet T S)
  clone C s = do
    (copy, m) ← Whole.clone key H C s.inner
    done (record { inner = copy }, record { inner = m })

  unfoldable pub insert : DashSet T S → K → Outcome (Bool × DashSet T S)
  insert s k = do
    (old, m) ← Entry.insert key H s.inner k tt
    done (not (is_some old), record { inner = m })

  unfoldable pub remove : DashSet T S → K → Outcome (Option K × DashSet T S)
  remove s k = do
    (e, m) ← Access.remove key H s.inner k
    done (Option.map (λ e. e.0) e, record { inner = m })

  unfoldable pub remove_if : DashSet T S → K → (K → Bool) → Outcome (Option K × DashSet T S)
  remove_if s k f = do
    (e, m) ← Access.remove_if key H s.inner k (λ j _. f j)
    done (Option.map (λ e. e.0) e, record { inner = m })

  unfoldable pub get : DashSet T S → K → Outcome (Option (Ref K) × DashSet T S)
  get s k = do
    (r, m) ← Access.get key H s.inner k
    done (Option.map (λ r. record { inner = r }) r, record { inner = m })

  unfoldable pub contains : DashSet T S → K → Outcome (Bool × DashSet T S)
  contains s k = do
    (answer, m) ← Access.contains_key key H s.inner k
    done (answer, record { inner = m })

  unfoldable pub retain : DashSet T S → (K → Bool) → Outcome (DashSet T S)
  retain s f = do m ← Whole.retain key H s.inner (λ k v. (f k, v)); done (record { inner = m })

  unfoldable pub shrink_to_fit : DashSet T S → Outcome (DashSet T S)
  shrink_to_fit s = do m ← Whole.shrink_to_fit key H s.inner; done (record { inner = m })

  unfoldable pub clear : DashSet T S → Outcome (DashSet T S)
  clear s = do m ← Whole.clear key H s.inner; done (record { inner = m })

  unfoldable pub len : DashSet T S → Outcome (ℕ × DashSet T S)
  len s = do (answer, m) ← Whole.len key H s.inner; done (answer, record { inner = m })

  unfoldable pub is_empty : DashSet T S → Outcome (Bool × DashSet T S)
  is_empty s = do (answer, m) ← Whole.is_empty key H s.inner; done (answer, record { inner = m })

  unfoldable pub capacity : DashSet T S → Outcome (ℕ × DashSet T S)
  capacity s = do (answer, m) ← Whole.capacity key H s.inner; done (answer, record { inner = m })

  unfoldable pub extend : DashSet T S → List K → Outcome (DashSet T S)
  extend s ks = do
    m ← Making.extend key H s.inner (map (λ k. (k, tt)) ks)
    done (record { inner = m })

  unfoldable pub from_iter : Option ℕ → S → List K → Outcome (DashSet T S)
  unfolding default extend
  from_iter parallelism default_hasher ks = do s ← default parallelism default_hasher; extend s ks

  -- `Iter::next`
  unfoldable pub next :
      Iter.Iter K (Unit {ℓ})
      → DashSet T S
      → Outcome (Option (RefMulti K) × Iter.Iter K (Unit {ℓ}) × DashSet T S)
  next it s = do
    (r, it', m) ← Iter.next H it s.inner
    done (Option.map (λ r. record { inner = r }) r, it', record { inner = m })

  -- `OwningIter::next`
  unfoldable pub next_owned :
      Iter.OwningIter T K (Unit {ℓ}) → Option K × Iter.OwningIter T K (Unit {ℓ})
  next_owned it = let r = Iter.next_owned H it in (Option.map (λ e. e.0) r.0, r.1)
