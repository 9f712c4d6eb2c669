-- ===== src/Rayon/Atomic.antt =====
-- Whatever the order of the workers' steps, what the finished ones have made of the map is what
-- one call of `insert` after another makes of it.
use dashmap.Base.{
  ℕ, suc, ◌≡◌, refl, sym, ◌∙◌, ap, subst, inl, inr, some, List, [], ◌∷◌, ◌++◌, Permᴰ, get_elem?,
  set, get_elem?-set_cases, get_elem?-set_self, lt_of_get_elem?, eq→==, ne→==, arith, ℕ_discrete,
}
use mathlib.Core.List.Permᴰ
use mathlib.Core.List.{append_assoc}
use dashmap.Base.Outcome.{Outcome, done, ◌>>=◌}
use dashmap.Key.{Key}
use dashmap.Lock.Word.{one_writer}
use dashmap.Table.{HashTable}
use dashmap.Map.{RwLock, DashMap, put_shard, rehash, search_shard}
use dashmap.Map.State.{home, located, put_shard-IsValid}
use dashmap.Map.Held.{entry_of}
use dashmap.Map.Entry.{Entry, into_key}
use dashmap.Map.Making.{extend}
use dashmap.Rayon.{Worker, waiting, inside, finished, advance, complete}
use dashmap.Rayon.Commit.{shard_of, old_value, new_table, complete_lem, extend-append}
use dashmap.Rayon.Released.{
  released_take, Enters, entry_free, entry_waits, commit, into_key-entry_of, shard_of-entry_of,
}
use dashmap.Rayon.Workers.{
  pending, holders, put_shard-Words, pending-enter, pending-leave, left, holders-set, holders-at,
  holders-twice, Enters-put_shard,
}
use dashmap.Rayon.Between.{Between}

module _ {ℓ} {K V S : Type ℓ} (key : Key K S) (H : HashTable (K × V)) (m : DashMap H.T S)
    (pairs : List (K × V)) where
  open H use {T, slots}

  module _ (c : DashMap T S) (ws : List (Worker K V)) (b : Between key H m pairs c ws) (j : ℕ) where
    -- a worker that has got the lock of its shard
    took :
        (k : K) (v : V) (e : Entry K V) (s : RwLock T)
        → get_elem? ws j ≡ some (waiting k v)
        → get_elem? c.shards (shard_of e) ≡ some s
        → s.raw ≡ 0
        → into_key e ≡ k
        → shard_of e ≡ home key H c (into_key e)
        → entry_of key H
            (shard_of e)
            (key.hash c.hasher (into_key e))
            (into_key e)
            (search_shard key H s.data_ptr (key.hash c.hasher (into_key e)) (into_key e))
          ≡ e
        → Between key H m pairs
            (put_shard c (shard_of e) (record { raw = one_writer; data_ptr = s.data_ptr }))
            (set ws j (inside e v))
    took k v e s at there free same own made =
        let s' : RwLock T = record { raw = one_writer; data_ptr = s.data_ptr } in
        let nobody : holders (shard_of e) ws ≡ 0 =
          omega (arith, b.words.raws (shard_of e) s there) in
        let moved = holders-set ws j (inside e v) at in
        let one : holders (shard_of e) (set ws j (inside e v)) ≡ 1 =
          ground (arith, moved (shard_of e), eq→== (shard_of e) (shard_of e) refl) in
        record {
          order = b.order;
          ran = b.ran ∙ ap done (sym (released_take c (shard_of e) s one_writer there));
          valid =
              put_shard-IsValid key H c b.valid (shard_of e) s s' there
                (record { fits = omega arith; no_flags = refl })
                (b.valid.shard (shard_of e) s there);
          perm =
              subst (λ l. Permᴰ (b.order ++ l) pairs) (sym (pending-enter ws j k v e at same))
                b.perm;
          words =
              put_shard-Words c ws (set ws j (inside e v)) (shard_of e) s' b.words
                (omega (arith, one)) (omega (arith, one))
                (λ i ne. ground (arith, moved i, ne→== (shard_of e) i ne));
          entered = λ i e' v' at'. elim (get_elem?-set_cases ws j i (inside e v) at') [
            | inl (_, eq) ↦
                let this : e ≡ e' = cc in
                subst (λ x. Enters key H (put_shard c (shard_of e) s') x) this
                  (record {
                    s = s';
                    at =
                        get_elem?-set_self c.shards (shard_of e) s'
                          (lt_of_get_elem? c.shards (shard_of e) there);
                    own = own;
                    made = made;
                  })
            | inr (_, old) ↦
                let some_one = holders-at ws i old in
                Enters-put_shard key H c e' (shard_of e) s'
                  (λ eq. absurd (omega (arith, some_one, ap (λ (n : ℕ). holders n ws) eq, nobody)))
                  (b.entered i e' v' old)
          ];
        }

    -- the same, with what the search of the shard gives
    took_search :
        (k : K) (v : V) (s : RwLock T)
        → get_elem? ws j ≡ some (waiting k v)
        → get_elem? c.shards (home key H c k) ≡ some s
        → s.raw ≡ 0
        → let e =
            entry_of key H
              (home key H c k)
              (key.hash c.hasher k)
              k
              (search_shard key H s.data_ptr (key.hash c.hasher k) k) in
          Between key H m pairs
            (put_shard c (home key H c k) (record { raw = one_writer; data_ptr = s.data_ptr }))
            (set ws j (inside e v))
    took_search k v s at there free =
        let found = search_shard key H s.data_ptr (key.hash c.hasher k) k in
        let e = entry_of key H (home key H c k) (key.hash c.hasher k) k found in
        let same = into_key-entry_of key H (home key H c k) (key.hash c.hasher k) k found in
        let own = shard_of-entry_of key H (home key H c k) (key.hash c.hasher k) k found in
        let own' : shard_of e ≡ home key H c (into_key e) = own ∙ ap (home key H c) (sym same) in
        let made =
          subst
            (λ (q : K).
              entry_of key H (home key H c q) (key.hash c.hasher q) q
                (search_shard key H s.data_ptr (key.hash c.hasher q) q)
              ≡ e)
            (sym same) refl in
        let made' =
          subst
            (λ (i : ℕ).
              entry_of key H i (key.hash c.hasher (into_key e)) (into_key e)
                (search_shard key H s.data_ptr (key.hash c.hasher (into_key e)) (into_key e))
              ≡ e)
            (sym own') made in
        let there' = subst (λ (i : ℕ). get_elem? c.shards i ≡ some s) (sym own) there in
        subst
          (λ (i : ℕ).
            Between key H m pairs
              (put_shard c i (record { raw = one_writer; data_ptr = s.data_ptr }))
              (set ws j (inside e v)))
          own (took k v e s at there' free same own' made')

    -- a worker that has let go
    pub left_it :
        (e : Entry K V) (v : V)
        → get_elem? ws j ≡ some (inside e v)
        → (m' : DashMap T S) × (complete key H e v c ≡ done (old_value e, m'))
          × Between key H m pairs m' (set ws j finished)
    unfolding extend
    left_it e v at =
        let i = shard_of e in
        let x = b.entered j e v at in
        let some_one = holders-at ws j at in
        let one : holders i ws ≡ 1 = omega (arith, b.words.single i) in
        let locked : x.s.raw ≡ one_writer = omega (arith, b.words.raws i x.s x.at, one) in
        let t' = new_table key H e v (rehash key H c) x.s.data_ptr in
        let s' : RwLock T = record { raw = 0; data_ptr = t' } in
        let moved = holders-set ws j finished at in
        let nobody : holders i (set ws j finished) ≡ 0 =
          ground (arith, moved i, one, eq→== i i refl) in
        let run =
          complete_lem key H e v c x.s.data_ptr
            (x.at ∙ ap (λ (r : ℕ). some (record { raw = r; data_ptr = x.s.data_ptr })) locked) in
        let (whole, valid') = commit key H c b.valid e v x in
        (
          put_shard c i s',
          run,
          record {
            order = b.order ++ (into_key e, v) ∷ [];
            ran =
                extend-append key H m b.order ((into_key e, v) ∷ [])
                ∙ ap (λ r. r >>= (λ m'. extend key H m' ((into_key e, v) ∷ []))) b.ran
                ∙ ap {B = Outcome (DashMap T S)} (λ r. r >>= (λ y. done y.1)) whole;
            valid = valid';
            perm =
                subst (λ l. Permᴰ l pairs)
                  (sym (append_assoc b.order ((into_key e, v) ∷ []) (pending (set ws j finished))))
                  (Permᴰ.trans (Permᴰ.append_left b.order (Permᴰ.symm (pending-leave ws j e v at)))
                    b.perm);
            words =
                put_shard-Words c ws (set ws j finished) i s' b.words (omega (arith, nobody))
                  (omega (arith, nobody)) (λ n ne. ground (arith, moved n, ne→== i n ne));
            entered = λ n e' v' at'. elim (get_elem?-set_cases ws j n finished at') [
              | inl (_, eq) ↦ cc
              | inr (ne, old) ↦
                  Enters-put_shard key H c e' i s'
                    (λ eq. absurd (omega (arith, holders-twice ws j n at old ne eq, one)))
                    (b.entered n e' v' old)
            ];
          },
        )

  -- A step of a worker, whatever it is.
  pub advance-Between :
      (c : DashMap T S) (ws : List (Worker K V)) (j : ℕ) (w w' : Worker K V) (m' : DashMap T S)
      → Between key H m pairs c ws
      → get_elem? ws j ≡ some w
      → advance key H w c ≡ done (w', m')
      → Between key H m pairs m' (set ws j w') × (left w ≡ suc (left w'))
  unfolding advance
  advance-Between c ws j (waiting k v) w' m' b at run =
      let l = located key H c k b.valid in
      elim (ℕ_discrete l.s.raw 0) [
        | no taken ↦
            let waits = entry_waits key H c k l.s b.valid l.at taken in
            let none = rw waits at run in cc
        | yes free ↦
            let e =
              entry_of key H (home key H c k) (key.hash c.hasher k) k
                (search_shard key H l.s.data_ptr (key.hash c.hasher k) k) in
            let lets_in =
              sym (
                ap (λ r. r >>= (λ y. done (inside y.0 v, y.1)))
                  (entry_free key H c k l.s b.valid l.at free))
              ∙ run in
            let same : inside e v ≡ w' = cc in
            let same_m : put_shard c (home key H c k)
                  (record { raw = one_writer; data_ptr = l.s.data_ptr })
                ≡ m' =
              cc in
            (
              subst (λ u. Between key H m pairs m' (set ws j u)) same
                  (subst (λ u. Between key H m pairs u (set ws j (inside e v))) same_m
                    (took_search c ws b j k v l.s at l.at free)),
              ap (λ u. suc (left u)) same,
            )
      ]
  advance-Between c ws j (inside e v) w' m' b at run =
      let (m₁, second, after) = left_it c ws b j e v at in
      let both = ap (λ r. r >>= (λ y. done (finished, y.1))) (sym second) ∙ run in
      let same : finished ≡ w' = cc in
      let same_m : m₁ ≡ m' = cc in
      (
        subst (λ u. Between key H m pairs m' (set ws j u)) same
            (subst (λ u. Between key H m pairs u (set ws j finished)) same_m after),
        ap (λ u. suc (left u)) same,
      )
  advance-Between c ws j finished w' m' b at run = cc
