-- ===== src/Map/Distinct.antt =====
-- Pairs with pairwise unequal keys: the order in which they are inserted does not matter.
use dashmap.Base.{
  ◌≤◌, ◌≡◌, refl, sym, ◌∙◌, ap, inl, inr, Option, none, some, List, [], ◌∷◌, Permᴰ, Bool-cases,
  arith,
}
use dashmap.Key.{Key}
use dashmap.Table.{HashTable}
use dashmap.Table.Entries.{length-perm}
use dashmap.Map.{DashMap}
use dashmap.Map.State.{contents}
use dashmap.Map.Tables.{found}
use dashmap.Map.Pairs.{Lists, find_pair, count_pairs, find_pair-eq-none}
use dashmap.Map.Extending.{inserted, first}

pub found-le {ℓ} : {A : Type ℓ} (x : Option A) → found x ≤ 1
found-le none = omega arith
found-le (some a) = omega arith

module _ {ℓ} {K V S : Type ℓ} (key : Key K S) where
  -- Each key is there at most once.
  abbrev pub AreDistinct : List (K × V) → Type ℓ
  AreDistinct pairs = (q : K) → count_pairs key q pairs ≤ 1

  -- what one pair leaves
  abbrev pub placed : Option (K × V) → Option (K × V) → Option (K × V)
  placed x none = x
  placed x (some e) = some (first key x e.0, e.1)

  count_pairs-perm :
      (q : K) {xs ys : List (K × V)} → Permᴰ xs ys → count_pairs key q xs ≡ count_pairs key q ys
  unfolding count_pairs
  count_pairs-perm q Permᴰ.nil = refl
  count_pairs-perm q (Permᴰ.cons e p) = rw (e, count_pairs-perm q p)
  count_pairs-perm q (Permᴰ.swap e f) = rw (e, f) (omega arith)
  count_pairs-perm q (Permᴰ.trans p r) = count_pairs-perm q p ∙ count_pairs-perm q r

  pub find_pair-perm :
      (q : K) {xs ys : List (K × V)}
      → Permᴰ xs ys
      → count_pairs key q xs ≤ 1
      → find_pair key q xs ≡ find_pair key q ys
  unfolding count_pairs find_pair
  find_pair-perm q Permᴰ.nil h = refl
  find_pair-perm q (Permᴰ.cons e p) h = rw (sym e) (ground (arith, find_pair-perm q p))
  find_pair-perm q (Permᴰ.swap e f) h = rw (sym e, sym f) (ground arith)
  find_pair-perm q (Permᴰ.trans p r) h =
      find_pair-perm q p h ∙ find_pair-perm q r (omega (arith, count_pairs-perm q p))

  pub inserted_once :
      (q : K) (x : Option (K × V)) (pairs : List (K × V))
      → count_pairs key q pairs ≤ 1
      → inserted key q x pairs ≡ placed x (find_pair key q pairs)
  unfolding inserted count_pairs find_pair
  inserted_once q x [] h = refl
  inserted_once q x ((k, v) ∷ pairs) h = elim (Bool-cases (key.equal q k)) [
    | inl same ↦
        let h' = rw same at h in
        rw same (
          inserted_once q (some (first key x k, v)) pairs (omega arith)
          ∙ ap (placed (some (first key x k, v))) (find_pair-eq-none key q pairs (omega arith)))
    | inr differ ↦ let h' = rw differ at h in rw differ (inserted_once q x pairs (omega arith))
  ]

  pub inserted-perm :
      (q : K) (x : Option (K × V)) {xs ys : List (K × V)}
      → Permᴰ xs ys
      → count_pairs key q ys ≤ 1
      → inserted key q x xs ≡ inserted key q x ys
  inserted-perm q x {xs} {ys} p h =
      let few : count_pairs key q xs ≤ 1 = omega (arith, count_pairs-perm q p) in
      inserted_once q x xs few
      ∙ ap (placed x) (find_pair-perm q p few)
      ∙ sym (inserted_once q x ys h)

module _ {ℓ} {K V S : Type ℓ} (key : Key K S) (H : HashTable (K × V)) where
  open H use {T, slots}

  -- The pairs of a map, in any order.
  pub Lists-perm :
      (m : DashMap T S) {xs ys : List (K × V)} → Permᴰ xs ys → Lists key H m ys → Lists key H m xs
  Lists-perm m {xs} {ys} p lists = record {
    finds = λ q.
        let few : count_pairs key q xs ≤ 1 =
          omega (arith, count_pairs-perm key q p, lists.once q, found-le (contents key H m q)) in
        find_pair-perm key q p few ∙ lists.finds q;
    once = λ q. count_pairs-perm key q p ∙ lists.once q;
    many = length-perm p ∙ lists.many;
  }
