-- ===== src/Map/Retaining.antt =====
-- `retain`, `clear` and `shrink_to_fit`.
use dashmap.Base.{
  ℕ, ◌≤◌, ◌≡◌, refl, ◌∙◌, Bool, false, Option, none, some, List, [], ◌∷◌, length, All, arith,
  if◌then◌else◌, if_intro,
}
use dashmap.Base.Outcome.{done}
use dashmap.Key.{Key}
use dashmap.Shards
use dashmap.Table.{HashTable, kept}
use dashmap.Table.Entries.{lookup, count, lookup-perm, count-perm, lookup-eq-none, All-perm}
use dashmap.Map.{DashMap}
use dashmap.Map.State.{IsValid, IsShard, contents, word}
use dashmap.Map.Whole.{retain, clear, shrink_to_fit}
use dashmap.Map.Loops.{
  everywhere, for_each_write_run, everywhere-IsValid, contents-everywhere, word-everywhere,
}

module _ {ℓ} {K V : Type ℓ} (f : K → V → Bool × V) where
  -- the closure of `retain` on an entry
  abbrev pub closure : K × V → Bool × (K × V)
  closure e = ((f e.0 e.1).0, (e.0, (f e.0 e.1).1))

  -- what it leaves under a key
  abbrev pub retained : Option (K × V) → Option (K × V)
  retained none = none
  retained (some (k, v)) = if (f k v).0 then some (k, (f k v).1) else none

module _ {ℓ} {K V S : Type ℓ} (key : Key K S) (f : K → V → Bool × V) where
  count-kept :
      (q : K) (xs : List (ℕ × (K × V))) → count key q (kept (closure f) xs) ≤ count key q xs
  unfolding count
  count-kept q [] = omega arith
  count-kept q ((h, (k, v)) ∷ xs) = ground (arith, count-kept q xs)

  lookup-kept :
      (q : K) (xs : List (ℕ × (K × V)))
      → count key q xs ≤ 1
      → lookup key q (kept (closure f) xs) ≡ retained f (lookup key q xs)
  unfolding count lookup
  lookup-kept q [] once = refl
  lookup-kept q ((h, (k, v)) ∷ xs) once =
      ground (arith, lookup-kept q xs, count-kept q xs, lookup-eq-none key q (kept (closure f) xs))

  All-kept {κ} :
      (P : ℕ → K → Type κ) (xs : List (ℕ × (K × V)))
      → All (λ e. P e.0 e.1.0) xs
      → All (λ e. P e.0 e.1.0) (kept (closure f) xs)
  All-kept P [] h = h
  All-kept P ((n, (k, v)) ∷ xs) h =
      if_intro (All (λ e. P e.0 e.1.0)) (f k v).0 (λ _. (h.0, All-kept P xs h.1))
        (λ _. All-kept P xs h.1)

module _ {ℓ} {K V S : Type ℓ} (key : Key K S) (H : HashTable (K × V)) (hasher : S) (shift : ℕ) where
  open H use {T, slots}

  retain-IsShard :
      (f : K → V → Bool × V) (i : ℕ) (t : T)
      → IsShard key H hasher shift i t
      → IsShard key H hasher shift i (H.retain t (closure f))
  retain-IsShard f i t ok =
      let p = H.slots-retain t (closure f) in
      record {
        filed = All-perm _ p (All-kept key f (λ h k. key.hash hasher k ≡ h) (slots t) ok.filed);
        placed =
            All-perm _ p
              (All-kept key f (λ h k. Shards.shard_index shift h ≡ i) (slots t) ok.placed);
        once = λ q. omega (arith, count-perm key q p, count-kept key f q (slots t), ok.once q);
      }

  lookup-retain :
      (f : K → V → Bool × V) (i : ℕ) (t : T) (q : K)
      → IsShard key H hasher shift i t
      → lookup key q (slots (H.retain t (closure f))) ≡ retained f (lookup key q (slots t))
  lookup-retain f i t q ok =
      lookup-perm key q (H.slots-retain t (closure f)) (
        omega (
          arith,
          count-perm key q (H.slots-retain t (closure f)),
          count-kept key f q (slots t),
          ok.once q,
        ))
      ∙ lookup-kept key f q (slots t) (ok.once q)

  abbrev shrunk : T → T
  shrunk t = H.shrink_to t (length (slots t)) (λ e. key.hash hasher e.0)

  shrink-IsShard :
      (i : ℕ) (t : T) → IsShard key H hasher shift i t → IsShard key H hasher shift i (shrunk t)
  shrink-IsShard i t ok =
      let p = H.slots-shrink_to t (length (slots t)) (λ e. key.hash hasher e.0) ok.filed in
      record {
        filed = All-perm _ p ok.filed;
        placed = All-perm _ p ok.placed;
        once = λ q. omega (arith, count-perm key q p, ok.once q);
      }

  lookup-shrink :
      (i : ℕ) (t : T) (q : K)
      → IsShard key H hasher shift i t
      → lookup key q (slots (shrunk t)) ≡ lookup key q (slots t)
  lookup-shrink i t q ok =
      let p = H.slots-shrink_to t (length (slots t)) (λ e. key.hash hasher e.0) ok.filed in
      lookup-perm key q p (omega (arith, count-perm key q p, ok.once q))

module _ {ℓ} {K V S : Type ℓ} (key : Key K S) (H : HashTable (K × V)) (m : DashMap H.T S)
    (valid : IsValid key H m) (free : All (λ s. s.raw ≡ 0) m.shards) where
  open H use {T, slots}

  -- A map that is in order, that nobody holds a lock of, and that has under each key what `g` makes
  -- of what was there.
  pub record Mapped (g : Option (K × V) → Option (K × V)) (m' : DashMap T S) : Type ℓ where
    pub valid' : IsValid key H m'
    pub reads : (q : K) → contents key H m' q ≡ g (contents key H m q)
    pub words : (q : K) → word key H m' q ≡ 0

  -- `retain` on a valid map that nobody holds a lock of: under each key stays what the closure
  -- keeps, with the value that it left, and the map is valid with every lock free.
  pub retain_lem :
      (f : K → V → Bool × V)
      → (m' : DashMap T S) × (retain key H m f ≡ done m') × Mapped (retained f) m'
  unfolding retain
  retain_lem f =
      let step : T → T = λ t. H.retain t (closure f) in
      (
        everywhere key H m valid step,
        for_each_write_run key H m valid step free,
        record {
          valid' =
              everywhere-IsValid key H m valid step (retained f)
                (retain-IsShard key H m.hasher m.shift f) (lookup-retain key H m.hasher m.shift f);
          reads =
              contents-everywhere key H m valid step (retained f)
                (retain-IsShard key H m.hasher m.shift f) (lookup-retain key H m.hasher m.shift f);
          words =
              word-everywhere key H m valid step (retained f)
                (retain-IsShard key H m.hasher m.shift f) (lookup-retain key H m.hasher m.shift f);
        },
      )

  -- `shrink_to_fit` on a valid map that nobody holds a lock of returns, and changes nothing that
  -- the map holds.
  pub shrink_to_fit_lem :
      (m' : DashMap T S) × (shrink_to_fit key H m ≡ done m') × Mapped (λ x. x) m'
  unfolding shrink_to_fit
  shrink_to_fit_lem =
      let step = shrunk key H m.hasher m.shift in
      let ok = shrink-IsShard key H m.hasher m.shift in
      let reads = lookup-shrink key H m.hasher m.shift in
      (
        everywhere key H m valid step,
        for_each_write_run key H m valid step free,
        record {
          valid' = everywhere-IsValid key H m valid step (λ x. x) ok reads;
          reads = contents-everywhere key H m valid step (λ x. x) ok reads;
          words = word-everywhere key H m valid step (λ x. x) ok reads;
        },
      )

  -- `clear` on a valid map that nobody holds a lock of leaves nothing under any key.
  pub clear_lem : (m' : DashMap T S) × (clear key H m ≡ done m') × Mapped (λ _. none) m'
  unfolding clear
  clear_lem =
      let (m', run, r) = retain_lem (λ _ v. (false, v)) in
      (
        m',
        run,
        record {
          valid' = r.valid';
          reads = λ q. r.reads q ∙ nothing (contents key H m q);
          words = r.words;
        },
      )
    where
      nothing : (x : Option (K × V)) → retained (λ _ v. (false, v)) x ≡ none
      nothing none = refl
      nothing (some x) = refl
