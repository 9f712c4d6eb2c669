-- ===== src/Rayon/OwningIter.antt =====
-- src/rayon/map.rs, src/rayon/set.rs and src/rayon/read_only.rs: `into_par_iter` of a map, of a set
-- and of a view, which own the shards and take no lock.
use dashmap.Base.{
  ℕ, zero, suc, ◌≡◌, refl, sym, ap, subst, some, List, [], ◌∷◌, ◌++◌, map, Permᴰ, All, get_elem?,
  set,
}
use mathlib.Core.List.Permᴰ
use dashmap.Key.{Key}
use dashmap.Table.{HashTable}
use dashmap.Map.{RwLock, DashMap}
use dashmap.Map.State.{IsValid}
use dashmap.Map.Iter.{pairs}
use dashmap.Map.Pairs.{Lists, all_pairs, all_pairs-Lists}
use dashmap.Map.Distinct.{Lists-perm}
use dashmap.ReadOnly.{ReadOnlyView}
use dashmap.DashSet.{DashSet}

-- What a consumer is given: the items of each iterator in their order, and those of different
-- iterators in any order.
pub data Interleaves {ℓ} {A : Type ℓ} : List (List A) → List A → Type ℓ where
  over : {xss : List (List A)} → All (λ xs. xs ≡ []) xss → Interleaves xss []
  item :
      (i : ℕ) {xss : List (List A)} {x : A} {xs ys : List A}
      → get_elem? xss i ≡ some (x ∷ xs)
      → Interleaves (set xss i xs) ys
      → Interleaves xss (x ∷ ys)

module _ {ℓ} {K V : Type ℓ} (H : HashTable (K × V)) where
  open H use {T, slots}

  -- the iterator that the closure returns for each shard
  abbrev pub into_par_iter : {S : Type ℓ} → DashMap T S → List (List (K × V))
  into_par_iter m = map (λ s. pairs H s.data_ptr) m.shards

  abbrev pub into_par_iter_view : {S : Type ℓ} → ReadOnlyView T S → List (List (K × V))
  into_par_iter_view view = into_par_iter view.map

module _ {ℓ} {K : Type ℓ} (H : HashTable (K × Unit {ℓ})) where
  open H use {T, slots}

  -- `map(|(k, _)| k)` on the iterator of the map
  abbrev pub into_par_iter_set : {S : Type ℓ} → DashSet T S → List (List K)
  into_par_iter_set s = map (λ xs. map (λ e. e.0) xs) (into_par_iter H s.inner)

module _ {ℓ} {A : Type ℓ} where
  joined : List (List A) → List A
  joined [] = []
  joined (xs ∷ xss) = xs ++ joined xss

  joined_empty : (xss : List (List A)) → All (λ xs. xs ≡ []) xss → joined xss ≡ []
  unfolding joined
  joined_empty [] h = refl
  joined_empty (xs ∷ xss) h = rw (h.0, joined_empty xss h.1)

  joined_item :
      (xss : List (List A)) (i : ℕ) {x : A} {xs : List A}
      → get_elem? xss i ≡ some (x ∷ xs)
      → Permᴰ (x ∷ joined (set xss i xs)) (joined xss)
  unfolding joined
  joined_item [] i at = cc
  joined_item (ys ∷ xss) zero {x} {xs} at =
      let same : x ∷ xs ≡ ys = cc in
      subst (λ l. Permᴰ (x ∷ (xs ++ joined xss)) (l ++ joined xss)) same (Permᴰ.refl _)
  joined_item (ys ∷ xss) (suc i) {x} {xs} at =
      Permᴰ.trans (Permᴰ.symm (Permᴰ.middle x ys (joined (set xss i xs))))
        (Permᴰ.append_left ys (joined_item xss i at))

  interleaved : {xss : List (List A)} {ys : List A} → Interleaves xss ys → Permᴰ ys (joined xss)
  interleaved {xss} (over all) = subst (λ l. Permᴰ [] l) (sym (joined_empty xss all)) Permᴰ.nil
  interleaved {xss} (item i at rest) =
      Permᴰ.trans (Permᴰ.cons refl (interleaved rest)) (joined_item xss i at)

module _ {ℓ} {K V S : Type ℓ} (key : Key K S) (H : HashTable (K × V)) where
  open H use {T, slots}

  joined-pairs : (ss : List (RwLock T)) → joined (map (λ s. pairs H s.data_ptr) ss) ≡ all_pairs H ss
  unfolding joined all_pairs
  joined-pairs [] = refl
  joined-pairs (s ∷ ss) = ap (λ l. pairs H s.data_ptr ++ l) (joined-pairs ss)

  -- However the parallel iterators over the shards of a valid map interleave, `into_par_iter` gives
  -- each key that the map holds once and no other, with what the map holds under it, whatever the
  -- locks are.
  pub into_par_iter_lem :
      (m : DashMap T S) {items : List (K × V)}
      → IsValid key H m
      → Interleaves (into_par_iter H m) items
      → Lists key H m items
  into_par_iter_lem m {items} valid mix =
      Lists-perm key H m (subst (λ l. Permᴰ items l) (joined-pairs m.shards) (interleaved mix))
        (all_pairs-Lists key H m valid)
