-- ===== src/Map/Pairs.antt =====
-- The pairs of a map, shard by shard, and that each key is among them once.
mod Finding
unfoldable pub use Finding.{find_pair, count_pairs}
pub use Finding.{find_pair-eq-none}
use dashmap.Map.Pairs.Finding.{
  or_else, or_else-none, find_pair-append, count_pairs-append, find_pair-slots, count_pairs-slots,
  count-found,
}
use dashmap.Base.{
  ℕ, zero, suc, ◌+◌, ◌≤◌, ◌<◌, subst, ◌≡◌, refl, sym, ◌∙◌, ap, ◌≢◌, inl, inr, Option, none, some,
  List, [], ◌∷◌, ◌++◌, map, length, length-append, length-map, get_elem?, All, total, arith,
  if◌then◌else◌, to_nat, Bool-cases,
}
use dashmap.Key.{Key}
use dashmap.Shards
use dashmap.Table.{HashTable}
use dashmap.Table.Entries.{lookup, count, lookup-eq-none}
use dashmap.Map.{RwLock, DashMap}
use dashmap.Map.State.{IsValid, IsShard, contents, entries, home, located}
use dashmap.Map.Tables.{found}
use dashmap.Map.Iter.{pairs}

module _ {ℓ} {K V : Type ℓ} (H : HashTable (K × V)) where
  open H use {T, slots}

  -- the pairs of a row of shards
  unfoldable pub all_pairs : List (RwLock T) → List (K × V)
  all_pairs [] = []
  all_pairs (s ∷ ss) = pairs H s.data_ptr ++ all_pairs ss

  length-all_pairs :
      (ss : List (RwLock T)) → length (all_pairs ss) ≡ total (λ s. length (slots s.data_ptr)) ss
  unfolding all_pairs total
  length-all_pairs [] = refl
  length-all_pairs (s ∷ ss) = omega (
    arith,
    length-append (map (λ e. e.1) (slots s.data_ptr)) (all_pairs ss),
    length-map (λ (e : ℕ × (K × V)). e.1) (slots s.data_ptr),
    length-all_pairs ss,
  )

module _ {ℓ} {K V S : Type ℓ} (key : Key K S) (H : HashTable (K × V)) where
  open H use {T, slots}

  -- A key is not in a shard that is not its own.
  count-elsewhere :
      (hasher : S) (shift i : ℕ) (q : K) (xs : List (ℕ × (K × V)))
      → All (λ e. key.hash hasher e.1.0 ≡ e.0) xs
      → All (λ e. Shards.shard_index shift e.0 ≡ i) xs
      → Shards.shard_index shift (key.hash hasher q) ≢ i
      → count key q xs ≡ 0
  unfolding count
  count-elsewhere hasher shift i q [] filed placed away = refl
  count-elsewhere hasher shift i q ((h, (k, v)) ∷ xs) filed placed away =
      elim (Bool-cases (key.equal q k)) [
        | inr differ ↦ rw (differ, count-elsewhere hasher shift i q xs filed.1 placed.1 away)
        | inl same ↦ absurd (
            away
              (ap (Shards.shard_index shift) (key.hash-equal hasher q k same ∙ filed.0) ∙ placed.0))
      ]

  -- the shards from number `i` on
  abbrev Row : S → ℕ → ℕ → List (RwLock T) → Type ℓ
  Row hasher shift i ss =
      (j : ℕ) (s : RwLock T)
      → get_elem? ss j ≡ some s
      → IsShard key H hasher shift (i + j) s.data_ptr

  Row-tail :
      (hasher : S) (shift i : ℕ) (s : RwLock T) (ss : List (RwLock T))
      → Row hasher shift i (s ∷ ss)
      → Row hasher shift (suc i) ss
  Row-tail hasher shift i s ss row j r at =
      let e : i + suc j ≡ suc i + j = omega arith in
      subst (λ (n : ℕ). IsShard key H hasher shift n r.data_ptr) e (row (suc j) r at)

  Row-head :
      (hasher : S) (shift i : ℕ) (s : RwLock T) (ss : List (RwLock T))
      → Row hasher shift i (s ∷ ss)
      → IsShard key H hasher shift i s.data_ptr
  Row-head hasher shift i s ss row =
      let e : i + 0 ≡ i = omega arith in
      subst (λ (n : ℕ). IsShard key H hasher shift n s.data_ptr) e (row 0 s refl)

  module _ (hasher : S) (shift : ℕ) (q : K) where
    abbrev h : ℕ
    h = Shards.shard_index shift (key.hash hasher q)

    nowhere :
        (i : ℕ) (ss : List (RwLock T))
        → Row hasher shift i ss
        → h < i
        → count_pairs key q (all_pairs H ss) ≡ 0
    unfolding all_pairs count_pairs
    nowhere i [] row below = refl
    nowhere i (s ∷ ss) row below =
        let ok = Row-head hasher shift i s ss row in
        rw (
          count_pairs-append key q (pairs H s.data_ptr) (all_pairs H ss),
          count_pairs-slots key q (slots s.data_ptr),
          count-elsewhere hasher shift i q (slots s.data_ptr) ok.filed ok.placed (ground arith),
          nowhere (suc i) ss (Row-tail hasher shift i s ss row) (omega arith),
        )

    at_home :
        (i : ℕ) (ss : List (RwLock T)) (j : ℕ) (r : RwLock T)
        → Row hasher shift i ss
        → get_elem? ss j ≡ some r
        → h ≡ i + j
        → (find_pair key q (all_pairs H ss) ≡ lookup key q (slots r.data_ptr))
          × (count_pairs key q (all_pairs H ss) ≡ count key q (slots r.data_ptr))
    unfolding all_pairs
    at_home i [] j r row at e = cc
    at_home i (s ∷ ss) zero r row at e =
        let none_after = nowhere (suc i) ss (Row-tail hasher shift i s ss row) (omega arith) in
        let here : s ≡ r = cc in
        (
          rw
              (
                ← here,
                find_pair-append key q (pairs H s.data_ptr) (all_pairs H ss),
                find_pair-slots key q (slots s.data_ptr),
              )
              (or_else-none _ _ (find_pair-eq-none key q (all_pairs H ss) none_after)),
          rw
              (
                ← here,
                count_pairs-append key q (pairs H s.data_ptr) (all_pairs H ss),
                count_pairs-slots key q (slots s.data_ptr),
                none_after,
              )
              (omega arith),
        )
    at_home i (s ∷ ss) (suc j) r row at e =
        let ok = Row-head hasher shift i s ss row in
        let none_here =
          count-elsewhere hasher shift i q (slots s.data_ptr) ok.filed ok.placed (ground arith) in
        let (finds, counts) =
          at_home (suc i) ss j r (Row-tail hasher shift i s ss row) at (omega arith) in
        (
          rw
              (
                find_pair-append key q (pairs H s.data_ptr) (all_pairs H ss),
                find_pair-slots key q (slots s.data_ptr),
                lookup-eq-none key q (slots s.data_ptr) none_here,
              )
              finds,
          rw
              (
                count_pairs-append key q (pairs H s.data_ptr) (all_pairs H ss),
                count_pairs-slots key q (slots s.data_ptr),
                none_here,
              )
              (omega (arith, counts)),
        )

  Row-all : (m : DashMap T S) → IsValid key H m → Row m.hasher m.shift 0 m.shards
  Row-all m valid j s at =
      let e : j ≡ 0 + j = omega arith in
      subst (λ (n : ℕ). IsShard key H m.hasher m.shift n s.data_ptr) e (valid.shard j s at)

  -- The pairs of a valid map: as many as it has entries, each key that it holds among them once and
  -- no other, with what it holds under the key.
  pub record Lists (m : DashMap T S) (xs : List (K × V)) : Type ℓ where
    pub finds : (q : K) → find_pair key q xs ≡ contents key H m q
    pub once : (q : K) → count_pairs key q xs ≡ found (contents key H m q)
    pub many : length xs ≡ entries key H m

  pub all_pairs-Lists : (m : DashMap T S) → IsValid key H m → Lists m (all_pairs H m.shards)
  unfolding entries
  all_pairs-Lists m valid = record {
    finds = λ q.
        let l = located key H m q valid in
        (at_home m.hasher m.shift q 0 m.shards (home key H m q) l.s (Row-all m valid) l.at
          (omega arith)).0
        ∙ sym l.holds;
    once = λ q.
        let l = located key H m q valid in
        (at_home m.hasher m.shift q 0 m.shards (home key H m q) l.s (Row-all m valid) l.at
          (omega arith)).1
        ∙ count-found key q (slots l.s.data_ptr) (l.ok.once q)
        ∙ ap found (sym l.holds);
    many = length-all_pairs H m.shards;
  }
