-- ===== src/Map/Search.antt =====
-- What the search of a shard finds.
use dashmap.Base.{
  ℕ, ◌≡◌, sym, ◌∙◌, ◌⊎◌, inl, inr, Bool, true, false, none, some, get_elem?, Option-cases,
  Bool-cases, All-get_elem?,
}
use dashmap.Key.{Key}
use dashmap.Table.{HashTable}
use dashmap.Table.Entries.{lookup, lookup_at, lookup_absent}
use dashmap.Map.{search_shard}
use dashmap.Map.State.{IsShard}

module _ {ℓ} {K V S : Type ℓ} (key : Key K S) (H : HashTable (K × V)) where
  open H use {T, slots}

  -- The entry of `k` at position `i`.
  pub record IsAt (hash : ℕ) (k : K) (t : T) (i : ℕ) (k' : K) (v : V) : Type ℓ where
    pub run : search_shard key H t hash k ≡ some (i, (k', v))
    pub at : get_elem? (slots t) i ≡ some (hash, (k', v))
    pub same : key.equal k k' ≡ true
    pub found : lookup key k (slots t) ≡ some (k', v)

  pub record IsMissing (hash : ℕ) (k : K) (t : T) : Type ℓ where
    pub run : search_shard key H t hash k ≡ none
    pub absent : lookup key k (slots t) ≡ none

  -- No entry under another hash is equal to `k`, and the search has looked at the rest.
  absent_at :
      (hasher : S) (t : T) (k : K)
      → ((i : ℕ) (a : K × V)
          → get_elem? (slots t) i ≡ some (key.hash hasher k, a)
          → key.equal k a.0 ≡ false)
      → (i : ℕ) (e : ℕ × (K × V)) → get_elem? (slots t) i ≡ some e
      → key.hash hasher e.1.0 ≡ e.0
      → key.equal k e.1.0 ≡ false
  absent_at hasher t k none_equal i (h, (k', v)) at filed = elim (Bool-cases (key.equal k k')) [
    | inr differ ↦ differ
    | inl same ↦
        let e : h ≡ key.hash hasher k = sym filed ∙ sym (key.hash-equal hasher k k' same) in
        none_equal i (k', v) (rw e at at)
  ]

  pub search_shard_lem :
      (hasher : S) (shift n : ℕ) (t : T) (k : K)
      → IsShard key H hasher shift n t
      → IsMissing (key.hash hasher k) k t
        ⊎ ((i : ℕ) × (k' : K) × (v : V) × IsAt (key.hash hasher k) k t i k' v)
  unfolding search_shard
  search_shard_lem hasher shift n t k ok =
      let hash = key.hash hasher k in
      let eq : K × V → Bool = λ e. key.equal k e.0 in
      elim (Option-cases (H.find t hash eq)) [
        | inl missing ↦ inl (record {
          run = rw (missing, search_shard);
          absent = lookup_absent key k (slots t) (λ i e at.
              absent_at hasher t k (H.find-none t hash eq missing) i e at
                (All-get_elem? _ (slots t) i ok.filed at));
        })
        | inr (i, hit) ↦
            let ((n', (k', v)), at, same) = H.find-some t hash eq i hit in
            let filed : n' ≡ hash =
              sym (All-get_elem? _ (slots t) i ok.filed at)
              ∙ sym (key.hash-equal hasher k k' same) in
            inr (
              i,
              k',
              v,
              record {
                run = rw (hit, search_shard, at);
                at = rw filed at at;
                same = same;
                found = lookup_at key k (slots t) i n' k' v at same (ok.once k);
              },
            )
      ]
