-- ===== src/Concurrent/Steps/Working.antt =====
-- The second step of a call: the work on the table of the shard.
use dashmap.Base.{
  ℕ, ◌+◌, ◌*◌, ◌≡◌, ◌≢◌, refl, sym, ◌∙◌, ap, inl, inr, true, Bool-cases, some, List, ◌∷◌, get_elem?,
  set, get_elem?-set_self, lt_of_get_elem?, eq→==, arith,
}
use dashmap.Base.Outcome.{done, ◌>>=◌}
use dashmap.Key.{Key}
use dashmap.Lock.Word.{one_writer}
use dashmap.Table.{HashTable}
use dashmap.Map.{RwLock, DashMap, put_shard, hash_u64, store}
use dashmap.Map.Guards.{shard_at_lem, put_shard_same}
use dashmap.Map.State.{home}
use dashmap.Concurrent.{
  Call, Reply, key_of, is_exclusive, Thread, inside, leaving, finish, call_next,
}
use dashmap.Concurrent.Guards.{
  writes, reads, writers, readers, writers-set, readers-set, le-writers, le-readers, add-le-writers,
  Alone,
}
use dashmap.Concurrent.Sections.{made_of}
use dashmap.Concurrent.Sections.Whole.{reads_only}
use dashmap.Concurrent.Seen.{happens}
use dashmap.Concurrent.Between.{Between, stepped}
use dashmap.Concurrent.Steps.{Shows, Moved}

module _ {ℓ} {K V S : Type ℓ} (key : Key K S) (H : HashTable (K × V)) (m : DashMap H.T S) where
  open H use {T, slots}

  store_at :
      (i : ℕ) (s : RwLock T) (t : T)
      → get_elem? m.shards i ≡ some s
      → store i t m ≡ done (put_shard m i (record { raw = s.raw; data_ptr = t }))
  unfolding store
  store_at i s t there = rw (shard_at_lem m i s there, ◌>>=◌)

  module _ (ws : List (Thread T K V)) (b : Between key H m ws) (j : ℕ) (c : Call K V)
      (cs : List (Call K V)) (rs : List (Reply K V)) (s : RwLock T)
      (there : get_elem? m.shards (home key H m (key_of c)) ≡ some s)
      (at : get_elem? ws j ≡ some (inside c (home key H m (key_of c)) s.data_ptr cs rs)) where
    abbrev i : ℕ
    i = home key H m (key_of c)

    abbrev made : Reply K V × T
    made = made_of key H m b.valid c s.data_ptr

    abbrev w : Thread T K V
    w = inside c i s.data_ptr cs rs

    abbrev w' : Thread T K V
    w' = leaving c i cs (made.0 ∷ rs)

    -- what the work shows
    shown : (raw : ℕ) → Shows key H w w' m (put_shard m i (record { raw = raw; data_ptr = made.1 }))
    unfolding call_next
    shown raw = rw ((happens key H m b.valid c s raw there).0, ◌>>=◌)

    -- With a guard for writes, nobody else has a guard of the shard.
    others_apart :
        is_exclusive c ≡ true
        → (n : ℕ) (u : Thread T K V) → get_elem? ws n ≡ some u
        → j ≢ n
        → writes i u + reads i u ≡ 0
    others_apart ex n u at' ne =
        let mine : writes i w ≡ 1 = rw (ex, eq→== i i refl) in
        elim (b.words.alone i) [
          | inl none ↦ absurd (omega (arith, le-writers ws j at i, mine, none))
          | inr (one, none) ↦
              omega
                (arith, add-le-writers ws j at n i u at' ne, le-readers ws n at' i, mine, one, none)
        ]

    same_word :
        (raw_is : s.raw ≡ writers i ws * one_writer + 4 * readers i ws)
        → s.raw ≡ writers i (set ws j w') * one_writer + 4 * readers i (set ws j w')
    same_word raw_is = omega (arith, raw_is, writers-set ws j w' at i, readers-set ws j w' at i)

    still-Alone : Alone i (set ws j w')
    still-Alone =
        let w_same : writers i (set ws j w') ≡ writers i ws =
          omega (arith, writers-set ws j w' at i) in
        let r_same : readers i (set ws j w') ≡ readers i ws =
          omega (arith, readers-set ws j w' at i) in
        rw (w_same, r_same) (b.words.alone i)

    -- A thread that has the lock does its work, and leaves the table that it makes where it writes.
    pub works :
        let m' = put_shard m i (record { raw = s.raw; data_ptr = made.1 }) in
        (finish key H c i s.data_ptr m ≡ done (made.0, m')) × Moved key H m ws j w w' m'
    unfolding finish hash_u64
    works =
        let s' : RwLock T = record { raw = s.raw; data_ptr = made.1 } in
        (
          elim (Bool-cases (is_exclusive c)) [
            | inl ex ↦ rw (ex, store_at i s made.1 there, ◌>>=◌)
            | inr shares ↦
                let kept = reads_only key H m b.valid c _ _ _ s.data_ptr shares in
                let same : m ≡ put_shard m i s' =
                  sym (put_shard_same m i s there)
                  ∙ ap (λ t. put_shard m i (record { raw = s.raw; data_ptr = t })) (sym kept) in
                rw (shares, ◌>>=◌) (ap (λ x. done (made.0, x)) same)
          ],
          record {
            between =
                stepped key H m ws b j w w' at i s s' there (b.valid.quiet i s there)
                  (happens key H m b.valid c s 0 there).1 (same_word (b.words.raws i s there))
                  still-Alone (λ n ne. (refl, refl))
                  (s', get_elem?-set_self m.shards i s' (lt_of_get_elem? m.shards i there))
                  (λ n u at' ne. elim (Bool-cases (is_exclusive c)) [
                    | inl ex ↦ inl (others_apart ex n u at' ne)
                    | inr shares ↦ inr (reads_only key H m b.valid c _ _ _ s.data_ptr shares)
                  ]);
            shows = shown s.raw;
            fewer = omega arith;
          },
        )
