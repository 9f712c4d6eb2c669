-- ===== src/Rayon/Released.antt =====
-- A map while calls are inside, seen with every lock let go: what the finished calls have made of it.
use dashmap.Base.{
  ℕ, ◌≡◌, ◌≢◌, refl, sym, ◌∙◌, ap, subst, some, List, [], ◌∷◌, map, All, get_elem?, get_elem?-map,
  get_elem?-set_self, lt_of_get_elem?, Option, none, set_same, map-set, arith,
}
use dashmap.Base.Outcome.{done, blocked, ◌>>=◌}
use dashmap.Key.{Key}
use dashmap.Lock.Word.{one_writer}
use dashmap.Table.{HashTable}
use dashmap.Map.{RwLock, DashMap, put_shard, rehash, search_shard, hash_u64}
use dashmap.Map.State.{IsValid, word, home, located, put_shard-IsValid}
use dashmap.Map.Guards.{write_taken, put_shard-put_shard}
use dashmap.Map.Loops.{changed, everywhere-IsValid, word-everywhere}
use dashmap.Map.Held.{entry_of, entry_run}
use dashmap.Map.Inserting.{insert_lem}
use dashmap.Map.Entry.{Entry, entry, insert, into_key}
use dashmap.Rayon.{complete}
use dashmap.Rayon.Commit.{shard_of, old_value, new_table, complete_lem, insert_parts}

module _ {ℓ} {T : Type ℓ} where
  as_is : (ss : List (RwLock T)) → All (λ s. s.raw ≡ 0) ss → map (changed (λ t. t)) ss ≡ ss
  as_is [] h = refl
  as_is (s ∷ ss) h =
      ap (λ (r : ℕ). record { raw = r; data_ptr = s.data_ptr } ∷ map (changed (λ t. t)) ss)
        (sym h.0)
      ∙ ap (λ l. s ∷ l) (as_is ss h.1)

module _ {ℓ} {T S : Type ℓ} where
  abbrev pub released : DashMap T S → DashMap T S
  released c = record c { shards = map (changed (λ t. t)) c.shards }

  -- Taking a lock does not show.
  pub released_take :
      (c : DashMap T S) (i : ℕ) (s : RwLock T) (raw : ℕ)
      → get_elem? c.shards i ≡ some s
      → released (put_shard c i (record { raw = raw; data_ptr = s.data_ptr })) ≡ released c
  released_take c i s raw at =
      ap (λ l. record { shift = c.shift; shards = l; hasher = c.hasher })
        (map-set (changed (λ t. t)) c.shards i (record { raw = raw; data_ptr = s.data_ptr })
          ∙ set_same (map (changed (λ t. t)) c.shards) i (changed (λ t. t) s)
              (get_elem?-map (changed (λ t. t)) c.shards i at))

  pub released_commit :
      (c : DashMap T S) (i : ℕ) (t : T)
      → released (put_shard c i (record { raw = 0; data_ptr = t }))
        ≡ put_shard (released c) i (record { raw = 0; data_ptr = t })
  released_commit c i t =
      ap (λ l. record { shift = c.shift; shards = l; hasher = c.hasher })
        (map-set (changed (λ t. t)) c.shards i (record { raw = 0; data_ptr = t }))

  -- A map that nobody holds a lock of is what it is seen as.
  pub released_free : (c : DashMap T S) → All (λ s. s.raw ≡ 0) c.shards → released c ≡ c
  released_free c free =
      ap (λ l. record { shift = c.shift; shards = l; hasher = c.hasher }) (as_is c.shards free)

module _ {ℓ} {K V S : Type ℓ} (key : Key K S) (H : HashTable (K × V)) where
  open H use {T, slots}

  module _ (c : DashMap T S) (valid : IsValid key H c) where
    pub released-IsValid : IsValid key H (released c)
    released-IsValid =
        everywhere-IsValid key H c valid (λ t. t) (λ x. x) (λ i t ok. ok) (λ i t q ok. refl)

    pub word-released : (q : K) → word key H (released c) q ≡ 0
    word-released =
        word-everywhere key H c valid (λ t. t) (λ x. x) (λ i t ok. ok) (λ i t q ok. refl)

  pub into_key-entry_of :
      (idx hash : ℕ) (k : K) (r : Option (ℕ × (K × V))) → into_key (entry_of key H idx hash k r) ≡ k
  into_key-entry_of idx hash k none = refl
  into_key-entry_of idx hash k (some (i, e)) = refl

  pub shard_of-entry_of :
      (idx hash : ℕ) (k : K) (r : Option (ℕ × (K × V)))
      → shard_of (entry_of key H idx hash k r) ≡ idx
  shard_of-entry_of idx hash k none = refl
  shard_of-entry_of idx hash k (some (i, e)) = refl

  -- The call that a free shard lets in, and one that waits.
  pub entry_free :
      (c : DashMap T S) (k : K) (s : RwLock T)
      → IsValid key H c
      → get_elem? c.shards (home key H c k) ≡ some s
      → s.raw ≡ 0
      → entry key H c k
        ≡ done (
          entry_of key H
              (home key H c k)
              (key.hash c.hasher k)
              k
              (search_shard key H s.data_ptr (key.hash c.hasher k) k),
          put_shard c (home key H c k) (record { raw = one_writer; data_ptr = s.data_ptr }),
        )
  entry_free c k s valid at free =
      let l = located key H c k valid in
      let both : some l.s ≡ some s = sym l.at ∙ at in
      let same : l.s ≡ s = cc in
      subst
        (λ x.
          entry key H c k
          ≡ done (
            entry_of key H (home key H c k) (key.hash c.hasher k) k
                (search_shard key H x.data_ptr (key.hash c.hasher k) k),
            put_shard c (home key H c k) (record { raw = one_writer; data_ptr = x.data_ptr }),
          ))
        same (entry_run key H c k valid (l.locked ∙ ap (λ x. x.raw) same ∙ free))

  pub entry_waits :
      (c : DashMap T S) (k : K) (s : RwLock T)
      → IsValid key H c
      → get_elem? c.shards (home key H c k) ≡ some s
      → s.raw ≢ 0
      → entry key H c k ≡ blocked
  unfolding entry hash_u64
  entry_waits c k s valid at taken =
      let l = located key H c k valid in
      let both : some l.s ≡ some s = sym l.at ∙ at in
      let same : l.s ≡ s = cc in
      rw (
        l.run,
        ◌>>=◌,
        write_taken c (home key H c k) l.s l.at l.quiet
            (λ e. taken (ap (λ x. x.raw) (sym same) ∙ e)),
      )

  -- An entry that is what a search of its shard gives, with the lock of the shard held.
  pub record Enters (c : DashMap T S) (e : Entry K V) : Type ℓ where
    pub s : RwLock T
    pub at : get_elem? c.shards (shard_of e) ≡ some s
    pub own : shard_of e ≡ home key H c (into_key e)
    pub made :
        entry_of key H
          (shard_of e)
          (key.hash c.hasher (into_key e))
          (into_key e)
          (search_shard key H s.data_ptr (key.hash c.hasher (into_key e)) (into_key e))
        ≡ e

  -- The second half of a call, seen with every lock let go, is the whole call.
  pub commit :
      (c : DashMap T S) (valid : IsValid key H c) (e : Entry K V) (v : V) (x : Enters c e)
      → let c' =
          put_shard c
            (shard_of e)
            (record { raw = 0; data_ptr = new_table key H e v (rehash key H c) x.s.data_ptr }) in
        (insert key H (released c) (into_key e) v ≡ done (old_value e, released c'))
        × IsValid key H c'
  commit c valid e v x =
      let rc = released c in
      let k = into_key e in
      let i = shard_of e in
      let inside : RwLock T = record { raw = one_writer; data_ptr = x.s.data_ptr } in
      let after : RwLock T = record {
        raw = 0;
        data_ptr = new_table key H e v (rehash key H c) x.s.data_ptr;
      } in
      let there = get_elem?-map (changed (λ t. t)) c.shards i x.at in
      let valid_r = released-IsValid c valid in
      let there_h =
        subst (λ (j : ℕ). get_elem? rc.shards j ≡ some (changed (λ t. t) x.s)) x.own there in
      let first =
        subst
          (λ (j : ℕ).
            entry key H rc k
            ≡ done (
              entry_of key H j (key.hash c.hasher k) k
                  (search_shard key H x.s.data_ptr (key.hash c.hasher k) k),
              put_shard rc j inside,
            ))
          (sym x.own) (entry_free rc k (changed (λ t. t) x.s) valid_r there_h refl)
        ∙ ap (λ y. done (y, put_shard rc i inside)) x.made in
      let second =
        complete_lem key H e v (put_shard rc i inside) x.s.data_ptr
          (get_elem?-set_self rc.shards i inside (lt_of_get_elem? rc.shards i there)) in
      let whole : insert key H rc k v ≡ done (old_value e, put_shard rc i after) =
        insert_parts key H rc k v
        ∙ ap (λ r. r >>= (λ y. complete key H y.0 v y.1)) first
        ∙ second
        ∙ ap (λ m. done (old_value e, m))
            (put_shard-put_shard rc i (changed (λ t. t) x.s) there inside after) in
      let (m', run, u) = insert_lem key H rc k valid_r v (word-released c valid k) in
      let both = sym run ∙ whole in
      let same : m' ≡ put_shard rc i after = cc in
      let valid' = subst (λ m. IsValid key H m) same u.valid in
      let ok =
        valid'.shard i after
          (get_elem?-set_self rc.shards i after (lt_of_get_elem? rc.shards i there)) in
      (
        whole ∙ ap (λ m. done (old_value e, m)) (sym (released_commit c i after.data_ptr)),
        put_shard-IsValid key H c valid i x.s after x.at
            (record { fits = omega arith; no_flags = refl }) ok,
      )
