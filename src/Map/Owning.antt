-- ===== src/Map/Owning.antt =====
-- What an `OwningIter` yields.
use dashmap.Base.{
  ℕ, zero, suc, ◌≤◌, ◌≡◌, refl, sym, ◌∙◌, ap, ◌⊎◌, inl, inr, Option, none, some, List, [], ◌∷◌,
  ◌++◌, length, arith,
}
use dashmap.Key.{Key}
use dashmap.Table.{HashTable}
use dashmap.Map.{RwLock, DashMap}
use dashmap.Map.State.{IsValid, entries}
use dashmap.Map.Iter.{OwningIter, next_owned, next_owned_shard, collect_owned, into_iter, pairs}
use dashmap.Map.Pairs.{all_pairs, all_pairs-Lists, Lists}

module _ {ℓ} {A : Type ℓ} where
  abbrev pub head : List A → Option A
  head [] = none
  head (x ∷ xs) = some x

  abbrev pub tail : List A → List A
  tail [] = []
  tail (x ∷ xs) = xs

module _ {ℓ} {K V : Type ℓ} (H : HashTable (K × V)) where
  open H use {T, slots}

  abbrev pub in_hand : Option (List (K × V)) → List (K × V)
  in_hand none = []
  in_hand (some es) = es

  -- what is still to come
  unfoldable pub remaining : OwningIter T K V → List (K × V)
  remaining it = in_hand it.current ++ all_pairs H it.shards

  -- What `next` makes of the next shard: `rest` stands for the shards after it.
  into_shard :
      (ss : List (RwLock T)) (rest : Option (K × V) × OwningIter T K V) (ps : List (K × V))
      → (rest.0 ≡ head (all_pairs H ss)) × (remaining rest.1 ≡ tail (all_pairs H ss))
      → let n : Option (K × V) × OwningIter T K V = elim ps [
        | [] ↦ rest
        | p ∷ es ↦ (some p, record { shards = ss; current = some es })
      ] in
        (n.0 ≡ head (ps ++ all_pairs H ss)) × (remaining n.1 ≡ tail (ps ++ all_pairs H ss))
  unfolding remaining
  into_shard ss rest [] h = h
  into_shard ss rest (p ∷ es) h = (refl, refl)

  -- `next` from the next shard on, where the current one has nothing left
  next_owned_shard_lem :
      (ss : List (RwLock T)) (current : Option (List (K × V)))
      → in_hand current ≡ []
      → ((next_owned_shard H ss current).0 ≡ head (all_pairs H ss))
        × (remaining (next_owned_shard H ss current).1 ≡ tail (all_pairs H ss))
  unfolding next_owned_shard remaining all_pairs
  next_owned_shard_lem [] current e = (refl, rw e)
  next_owned_shard_lem (s ∷ ss) current e =
      into_shard ss (next_owned_shard H ss (some [])) (pairs H s.data_ptr)
        (next_owned_shard_lem ss (some []) refl)

  -- `next` of an `OwningIter` yields the first of the pairs that are still to come and leaves the
  -- others, and yields `None` where there is none.
  pub next_owned_lem :
      (it : OwningIter T K V)
      → ((next_owned H it).0 ≡ head (remaining it))
        × (remaining (next_owned H it).1 ≡ tail (remaining it))
  unfolding next_owned remaining
  next_owned_lem it = from it.shards it.current
    where
      from :
          (ss : List (RwLock T)) (current : Option (List (K × V)))
          → let it' : OwningIter T K V = record { shards = ss; current = current } in
            ((next_owned H it').0 ≡ head (remaining it'))
            × (remaining (next_owned H it').1 ≡ tail (remaining it'))
      from ss none = next_owned_shard_lem ss none refl
      from ss (some []) = next_owned_shard_lem ss (some []) refl
      from ss (some (p ∷ es)) = (refl, refl)

  List-cases : {A : Type ℓ} (xs : List A) → (xs ≡ []) ⊎ ((x : A) × (ys : List A) × (xs ≡ x ∷ ys))
  List-cases [] = inl refl
  List-cases (x ∷ xs) = inr (x, xs, refl)

  collect_owned_lem :
      (n : ℕ) (it : OwningIter T K V)
      → length (remaining it) ≤ n
      → collect_owned H n it ≡ remaining it
  unfolding collect_owned
  collect_owned_lem zero it h = elim (List-cases (remaining it)) [
    | inl e ↦ sym e
    | inr (x, ys, e) ↦ absurd (omega (arith, ap length e))
  ]
  collect_owned_lem (suc n) it h =
      let (first, others) = next_owned_lem it in
      elim (List-cases (remaining it)) [
        | inl e ↦ rw (collect_owned, first, e)
        | inr (x, ys, e) ↦
            let left : remaining (next_owned H it).1 ≡ ys = others ∙ rw e in
            let small : length (remaining (next_owned H it).1) ≤ n =
              rw left (omega (arith, ap length e)) in
            rw (collect_owned, first, e, collect_owned_lem n (next_owned H it).1 small, left)
      ]

module _ {ℓ} {K V S : Type ℓ} (key : Key K S) (H : HashTable (K × V)) where
  open H use {T, slots}

  -- Of a valid map, `into_iter` yields in as many calls as there are entries, or more, each key
  -- that the map holds once and no other, with what the map holds under it.
  pub into_iter_lem :
      (m : DashMap T S)
      → IsValid key H m
      → (n : ℕ) → entries key H m ≤ n
      → Lists key H m (collect_owned H n (into_iter H m))
  unfolding remaining
  into_iter_lem m valid n enough =
      let lists = all_pairs-Lists key H m valid in
      rw (collect_owned_lem H n (into_iter H m) (rw lists.many enough)) lists
