-- ===== src/Map/Building.antt =====
-- Maps that are made of pairs: what an empty map comes to, and `from_iter`.
use dashmap.Base.{ℕ, ◌≤◌, ◌^◌, ◌≡◌, ◌∙◌, ap, none, some, List, All-get_elem?, arith}
use dashmap.Base.Outcome.{done, ◌>>=◌}
use dashmap.Key.{Key}
use dashmap.Table.{HashTable}
use dashmap.Map.{DashMap}
use dashmap.Map.State.{IsValid, contents, word, home, located}
use dashmap.Map.Making.{with_capacity_and_hasher, with_hasher, default, extend, from_iter}
use dashmap.Map.Extending.{inserted, extend_lem}
use dashmap.Map.Fresh.{with_capacity_and_hasher_lem}

module _ {ℓ} {K V S : Type ℓ} (key : Key K S) (H : HashTable (K × V)) where
  open H use {T, slots}

  -- a map that holds what the entries, inserted one after another into an empty one, leave
  pub record Holds (es : List (K × V)) (m : DashMap T S) : Type ℓ where
    pub valid : IsValid key H m
    pub free : (q : K) → word key H m q ≡ 0
    pub reads : (q : K) → contents key H m q ≡ inserted key q none es

  module _ (parallelism : ℕ) (hasher : S) (low : 1 ≤ parallelism)
      (high : parallelism ≤ 2 ^ 61) where
    -- An empty map is made, and extended.
    pub built :
        (capacity : ℕ) (es : List (K × V))
        → capacity ≤ 2 ^ 63
        → (m₀ : DashMap T S) × (m : DashMap T S) × (with_capacity_and_hasher key H
              (some parallelism)
              capacity
              hasher
            ≡ done m₀)
          × (extend key H m₀ es ≡ done m)
          × Holds es m
    built capacity es small =
        let (m₀, run, fresh) =
          with_capacity_and_hasher_lem key H parallelism capacity hasher low high small in
        let nobody = λ (q : K).
          let l = located key H m₀ q fresh.valid in
          l.locked ∙ All-get_elem? (λ s. s.raw ≡ 0) m₀.shards (home key H m₀ q) fresh.free l.at in
        let (m, extends, valid, free, reads) = extend_lem key H es m₀ fresh.valid nobody in
        (
          m₀,
          m,
          run,
          extends,
          record {
            valid = valid;
            free = free;
            reads = λ q. reads q ∙ ap (λ x. inserted key q x es) (fresh.nothing q);
          },
        )

    -- `from_iter`, where the number of processors is known and at most 2 ^ 61, returns a map that
    -- holds what the pairs, inserted one after another into an empty one, leave.
    pub from_iter_lem :
        (es : List (K × V))
        → (m : DashMap T S) × (from_iter key H (some parallelism) hasher es ≡ done m) × Holds es m
    unfolding from_iter default with_hasher
    from_iter_lem es =
        let (m₀, m, run, extends, holds) = built 0 es (omega arith) in
        (m, rw (run, ◌>>=◌, extends), holds)
