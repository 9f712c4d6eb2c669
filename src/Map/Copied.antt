-- ===== src/Map/Copied.antt =====
-- What a copied table holds, and a map under a copied hasher.
use dashmap.Base.{
  ℕ, ◌≡◌, refl, ◌∙◌, ap, subst, fun_ext, sym, List, [], ◌∷◌, map, All, length, suc, arith,
}
use mathlib.Core.Option
use dashmap.Key.{Key, equal_congr_right}
use dashmap.Shards
use dashmap.Table.{HashTable}
use dashmap.Table.Entries.{lookup, count, lookup-perm, count-perm, All-perm, length-perm}
use dashmap.Clone.{Clone, clone_pair}
use dashmap.Map.{DashMap}
use dashmap.Map.State.{IsValid, IsShard, contents, word}

module _ {ℓ} {K V S : Type ℓ} (key : Key K S) (H : HashTable (K × V)) (C : Clone key H) where
  open H use {T, slots}

  -- the copy of a filed pair
  abbrev copy : ℕ × (K × V) → ℕ × (K × V)
  copy e = (e.0, clone_pair C e.1)

  count-copy : (q : K) (xs : List (ℕ × (K × V))) → count key q (map copy xs) ≡ count key q xs
  unfolding count
  count-copy q [] = refl
  count-copy q ((h, (k, v)) ∷ xs) =
      rw (equal_congr_right key q k (C.clone_key k) (C.equal-clone_key k), count-copy q xs)

  lookup-copy :
      (q : K) (xs : List (ℕ × (K × V)))
      → lookup key q (map copy xs) ≡ Option.map (clone_pair C) (lookup key q xs)
  unfolding lookup
  lookup-copy q [] = refl
  lookup-copy q ((h, (k, v)) ∷ xs) =
      let same = equal_congr_right key q k (C.clone_key k) (C.equal-clone_key k) in
      ground (arith, same, lookup-copy q xs)

  filed-copy :
      (hasher : S) (xs : List (ℕ × (K × V)))
      → All (λ e. key.hash hasher e.1.0 ≡ e.0) xs
      → All (λ e. key.hash hasher e.1.0 ≡ e.0) (map copy xs)
  filed-copy hasher [] ok = tt
  filed-copy hasher ((h, (k, v)) ∷ xs) ok = (
    sym (key.hash-equal hasher k (C.clone_key k) (C.equal-clone_key k)) ∙ ok.0,
    filed-copy hasher xs ok.1,
  )

  placed-copy :
      (shift i : ℕ) (xs : List (ℕ × (K × V)))
      → All (λ e. Shards.shard_index shift e.0 ≡ i) xs
      → All (λ e. Shards.shard_index shift e.0 ≡ i) (map copy xs)
  placed-copy shift i [] ok = tt
  placed-copy shift i (x ∷ xs) ok = (ok.0, placed-copy shift i xs ok.1)

  pub clone_table-IsShard :
      (hasher : S) (shift i : ℕ) (t : T)
      → IsShard key H hasher shift i t
      → IsShard key H hasher shift i (C.clone_table t)
  clone_table-IsShard hasher shift i t ok =
      let p = C.slots-clone_table t in
      record {
        filed = All-perm _ p (filed-copy hasher (slots t) ok.filed);
        placed = All-perm _ p (placed-copy shift i (slots t) ok.placed);
        once = λ q. omega (arith, count-perm key q p, count-copy q (slots t), ok.once q);
      }

  pub lookup-clone_table :
      (hasher : S) (shift i : ℕ) (t : T) (q : K)
      → IsShard key H hasher shift i t
      → lookup key q (slots (C.clone_table t)) ≡ Option.map (clone_pair C) (lookup key q (slots t))
  lookup-clone_table hasher shift i t q ok =
      let p = C.slots-clone_table t in
      lookup-perm key q p (omega (arith, count-perm key q p, count-copy q (slots t), ok.once q))
      ∙ lookup-copy q (slots t)

  length-map-copy : (xs : List (ℕ × (K × V))) → length (map copy xs) ≡ length xs
  length-map-copy [] = refl
  length-map-copy (x ∷ xs) = ap suc (length-map-copy xs)

  pub length-clone_table : (t : T) → length (slots (C.clone_table t)) ≡ length (slots t)
  length-clone_table t = length-perm (C.slots-clone_table t) ∙ length-map-copy (slots t)

  -- A map whose hasher is exchanged for its copy is as it was.
  module _ (m : DashMap T S) where
    abbrev pub under_copy : DashMap T S
    under_copy = record m { hasher = C.clone_hasher m.hasher }

    pub contents-under_copy : (q : K) → contents key H under_copy q ≡ contents key H m q
    unfolding contents
    contents-under_copy q = rw (contents, C.hash-clone_hasher m.hasher q)

    pub word-under_copy : (q : K) → word key H under_copy q ≡ word key H m q
    unfolding word
    word-under_copy q = rw (word, C.hash-clone_hasher m.hasher q)

    pub under_copy-IsValid : IsValid key H m → IsValid key H under_copy
    under_copy-IsValid valid = record {
      bits = valid.bits;
      few = valid.few;
      some_shards = valid.some_shards;
      shifts = valid.shifts;
      width = valid.width;
      quiet = valid.quiet;
      shard = λ i s at.
          let ok = valid.shard i s at in
          record {
            filed =
                subst (λ (h : K → ℕ). All (λ e. h e.1.0 ≡ e.0) (slots s.data_ptr))
                  (fun_ext (λ k. sym (C.hash-clone_hasher m.hasher k))) ok.filed;
            placed = ok.placed;
            once = ok.once;
          };
    }
