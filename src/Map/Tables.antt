-- ===== src/Map/Tables.antt =====
-- The three writes to the table of a shard: over an entry, a new entry, and an entry less.
use dashmap.Base.{
  ℕ, ◌+◌, ◌≤◌, ◌≡◌, refl, sym, ◌∙◌, ap, true, Option, none, some, List, ◌∷◌, [], length, get_elem?,
  length-set, get_elem?-set_self, lt_of_get_elem?, if◌then◌else◌, arith, All-get_elem?,
}
use dashmap.Key.{Key, equal_congr_left, equal_congr_right}
use dashmap.Shards
use dashmap.Table.{HashTable}
use dashmap.Table.Entries.{
  lookup, count, lookup-set, count-set, lookup-perm, count-perm, lookup-eq-none, count-eq-zero,
  All-perm, All-set, length-perm,
}
use dashmap.Map.State.{IsShard}

abbrev pub found {ℓ} : {A : Type ℓ} → Option A → ℕ
found none = 0
found (some _) = 1

module _ {ℓ} {K V S : Type ℓ} (key : Key K S) where
  count_congr :
      (q k : K) (xs : List (ℕ × (K × V))) → key.equal q k ≡ true → count key q xs ≡ count key k xs
  unfolding count
  count_congr q k [] e = refl
  count_congr q k ((h, (j, u)) ∷ xs) e = rw (equal_congr_left key q k j e, count_congr q k xs e)

  pub lookup_congr :
      (q k : K) (xs : List (ℕ × (K × V))) → key.equal q k ≡ true → lookup key q xs ≡ lookup key k xs
  unfolding lookup
  lookup_congr q k [] e = refl
  lookup_congr q k ((h, (j, u)) ∷ xs) e = rw (equal_congr_left key q k j e, lookup_congr q k xs e)

module _ {ℓ} {K V S : Type ℓ} (key : Key K S) (H : HashTable (K × V)) (hasher : S)
    (shift n : ℕ) where
  open H use {T, slots}

  -- `t'` is in order, and holds `x` under `k` and for the rest what `t` holds.
  pub record Rewrites (t : T) (k : K) (x : Option (K × V)) (t' : T) : Type ℓ where
    pub ok : IsShard key H hasher shift n t'
    pub reads :
        (q : K) → lookup key q (slots t') ≡ (if key.equal q k then x else lookup key q (slots t))
    pub size : length (slots t') + found (lookup key k (slots t)) ≡ length (slots t) + found x

  pub write-Rewrites :
      (t : T) (i h : ℕ) (k j q₀ : K) (v u : V)
      → IsShard key H hasher shift n t
      → get_elem? (slots t) i ≡ some (h, (k, v))
      → lookup key q₀ (slots t) ≡ some (k, v)
      → key.equal q₀ k ≡ true
      → key.equal k j ≡ true
      → Rewrites t q₀ (some (j, u)) (H.write t i (j, u))
  write-Rewrites t i h k j q₀ v u ok at found_q same same_j =
      let e = H.slots-write t i h (k, v) (j, u) at in
      let filed : key.hash hasher k ≡ h = All-get_elem? _ (slots t) i ok.filed at in
      let refiled : key.hash hasher j ≡ h = sym (key.hash-equal hasher k j same_j) ∙ filed in
      record {
        ok = record {
          filed = rw e (All-set _ (slots t) i (h, (j, u)) ok.filed refiled);
          placed = rw e (
              All-set _ (slots t) i (h, (j, u)) ok.placed
                (All-get_elem? _ (slots t) i ok.placed at));
          once = λ q. rw (e, count-set key q (slots t) i h h k j v u at same_j) (ok.once q);
        };
        reads = λ q. rw e (
            lookup-set key q (slots t) i h h k j v u at same_j (ok.once q)
            ∙ rw (equal_congr_right key q q₀ k same));
        size = rw (e, length-set (slots t) i (h, (j, u)), found_q);
      }

  pub remove-Rewrites :
      (t : T) (i h : ℕ) (k j : K) (v : V)
      → IsShard key H hasher shift n t
      → get_elem? (slots t) i ≡ some (h, (k, v))
      → lookup key j (slots t) ≡ some (k, v)
      → key.equal j k ≡ true
      → Rewrites t j none (H.remove t i)
  unfolding lookup count
  remove-Rewrites t i h k j v ok at found_j same =
      let p = H.slots-remove t i (h, (k, v)) at in
      let rest = slots (H.remove t i) in
      record {
        ok = record {
          filed = (All-perm _ p ok.filed).1;
          placed = (All-perm _ p ok.placed).1;
          once = λ q. omega (arith, count-perm key q p, ok.once q);
        };
        reads = λ q. ground (
          arith,
          lookup-perm key q p (omega (arith, count-perm key q p, ok.once q)),
          lookup-eq-none key q rest,
          count-perm key q p,
          ok.once q,
          equal_congr_right key q j k same,
        );
        size = rw found_j (omega (arith, length-perm p));
      }

  pub insert-Rewrites :
      (t : T) (k : K) (v : V)
      → IsShard key H hasher shift n t
      → Shards.shard_index shift (key.hash hasher k) ≡ n
      → lookup key k (slots t) ≡ none
      → Rewrites t k
          (some (k, v))
          (H.insert t (key.hash hasher k) (k, v) (λ e. key.hash hasher e.0)).0
  unfolding lookup count
  insert-Rewrites t k v ok here absent =
      let p =
        H.slots-insert t (key.hash hasher k) (k, v) (λ e. key.hash hasher e.0) ok.filed refl in
      let new = slots (H.insert t (key.hash hasher k) (k, v) (λ e. key.hash hasher e.0)).0 in
      let few : (q : K) → count key q new ≤ 1 = λ q. ground (
        arith,
        count-perm key q p,
        ok.once q,
        count_congr key q k (slots t),
        count-eq-zero key k (slots t),
      ) in
      record {
        ok = record {
          filed = All-perm _ p (refl, ok.filed);
          placed = All-perm _ p (here, ok.placed);
          once = few;
        };
        reads = λ q. lookup-perm key q p (few q);
        size = rw absent (omega (arith, length-perm p));
      }

  -- Two writes under one key: the second one counts.
  pub Rewrites-trans :
      (t t' t'' : T) (k : K) (x y : Option (K × V))
      → Rewrites t k x t'
      → Rewrites t' k y t''
      → Rewrites t k y t''
  Rewrites-trans t t' t'' k x y a b =
      let now : lookup key k (slots t') ≡ x = a.reads k ∙ rw (key.equal_refl k) in
      record {
        ok = b.ok;
        reads = λ q. ground (arith, a.reads q, b.reads q);
        size = omega (arith, a.size, b.size, ap found now);
      }

  -- The entry at `i` changed and then taken out.
  pub write-remove-Rewrites :
      (t : T) (i h : ℕ) (k q₀ : K) (v u : V)
      → IsShard key H hasher shift n t
      → get_elem? (slots t) i ≡ some (h, (k, v))
      → lookup key q₀ (slots t) ≡ some (k, v)
      → key.equal q₀ k ≡ true
      → Rewrites t q₀ none (H.remove (H.write t i (k, u)) i)
  write-remove-Rewrites t i h k q₀ v u ok at found_q same =
      let a = write-Rewrites t i h k k q₀ v u ok at found_q same (key.equal_refl k) in
      let at' =
        ap (λ l. get_elem? l i) (H.slots-write t i h (k, v) (k, u) at)
        ∙ get_elem?-set_self (slots t) i (h, (k, u)) (lt_of_get_elem? (slots t) i at) in
      let found' = a.reads q₀ ∙ rw (key.equal_refl q₀) in
      Rewrites-trans t (H.write t i (k, u)) _ q₀ (some (k, u)) none a
        (remove-Rewrites (H.write t i (k, u)) i h k q₀ u a.ok at' found' same)
