-- ===== src/Concurrent/Steps/Leaving.antt =====
-- The last step of a call: the guard goes.
use dashmap.Base.{
  ℕ, ◌+◌, ◌-◌, ◌*◌, ◌≡◌, refl, sym, ◌∙◌, ap, inl, inr, true, false, Bool-cases, some, List,
  get_elem?, set, eq→==, ne→==, arith,
}
use dashmap.Base.Outcome.{done, ◌>>=◌}
use dashmap.Key.{Key}
use dashmap.Lock.Alone
use dashmap.Lock.Quiet.{IsQuiet, unlock_shared_lem, unlock_exclusive_lem}
use dashmap.Lock.Word.{one_writer}
use dashmap.Table.{HashTable}
use dashmap.Map.{RwLock, DashMap, put_shard, drop_read, drop_write}
use dashmap.Map.Guards.{shard_at_lem}
use dashmap.Rayon.Released.{released_take}
use dashmap.Concurrent.{Call, Reply, is_exclusive, Thread, outside, leaving, leave}
use dashmap.Concurrent.Guards.{
  writes, reads, writers, readers, writers-set, readers-set, le-writers, le-readers,
}
use dashmap.Concurrent.Between.{Between, stepped}
use dashmap.Concurrent.Steps.{Moved}

module _ {ℓ} {K V S : Type ℓ} (key : Key K S) (H : HashTable (K × V)) (m : DashMap H.T S) where
  open H use {T, slots}

  module _ (ws : List (Thread T K V)) (b : Between key H m ws) (j : ℕ) (c : Call K V) (i : ℕ)
      (cs : List (Call K V)) (rs : List (Reply K V)) (s : RwLock T)
      (there : get_elem? m.shards i ≡ some s) (at : get_elem? ws j ≡ some (leaving c i cs rs)) where
    abbrev w : Thread T K V
    w = leaving c i cs rs

    abbrev w' : Thread T K V
    w' = outside cs rs

    -- The word that the guard leaves.
    leaves_with :
        (raw : ℕ)
        → let s' : RwLock T = record { raw = raw; data_ptr = s.data_ptr } in
          leave key H c i m ≡ done (put_shard m i s')
          → IsQuiet raw
          → raw ≡ writers i (set ws j w') * one_writer + 4 * readers i (set ws j w')
          → writers i (set ws j w') ≡ 0
          → Moved key H m ws j w w' (put_shard m i s')
    leaves_with raw run quiet word none =
        let s' : RwLock T = record { raw = raw; data_ptr = s.data_ptr } in
        record {
          between =
              stepped key H m ws b j w w' at i s s' there quiet (b.valid.shard i s there) word
                (inl none)
                (λ n ne. elim (Bool-cases (is_exclusive c)) [
                  | inl ex ↦ (ground (arith, ex, ne→== i n ne), ground (arith, ex))
                  | inr shares ↦ (ground (arith, shares), ground (arith, shares, ne→== i n ne))
                ])
                tt (λ n u at' ne. inr refl);
          shows = (refl, released_take m i s raw there);
          fewer = omega arith;
        }

    leaves_exclusive :
        is_exclusive c ≡ true
        → (m' : DashMap T S) × (leave key H c i m ≡ done m') × Moved key H m ws j w w' m'
    unfolding leave drop_write
    leaves_exclusive ex =
        let mine : writes i w ≡ 1 = rw (ex, eq→== i i refl) in
        let w_now = writers-set ws j w' at i in
        let r_now = readers-set ws j w' at i in
        let nothing : reads i w ≡ 0 = rw ex in
        elim (b.words.alone i) [
          | inl none ↦ absurd (omega (arith, le-writers ws j at i, mine, none))
          | inr (one, none) ↦
              let raw_is : s.raw ≡ one_writer = omega (arith, b.words.raws i s there, one, none) in
              let unlocks : Alone.unlock_exclusive s.raw ≡ 0 =
                ap Alone.unlock_exclusive raw_is ∙ unlock_exclusive_lem in
              let run : leave key H c i m
                  ≡ done (put_shard m i (record { raw = 0; data_ptr = s.data_ptr })) =
                rw (ex, shard_at_lem m i s there, ◌>>=◌, unlocks) in
              let no_writers : writers i (set ws j w') ≡ 0 = omega (arith, w_now, mine, one) in
              let no_readers : readers i (set ws j w') ≡ 0 = omega (arith, r_now, nothing, none) in
              (
                _,
                run,
                leaves_with 0 run (record { fits = omega arith; no_flags = refl })
                    (omega (arith, no_writers, no_readers)) no_writers,
              )
        ]

    leaves_shared :
        is_exclusive c ≡ false
        → (m' : DashMap T S) × (leave key H c i m ≡ done m') × Moved key H m ws j w w' m'
    unfolding leave drop_read
    leaves_shared shares =
        let mine : reads i w ≡ 1 = rw (shares, eq→== i i refl) in
        let nothing : writes i w ≡ 0 = rw shares in
        let w_now = writers-set ws j w' at i in
        let r_now = readers-set ws j w' at i in
        let quiet = b.valid.quiet i s there in
        elim (b.words.alone i) [
          | inr (one, none) ↦ absurd (omega (arith, le-readers ws j at i, mine, none))
          | inl none ↦
              let raw_is : s.raw ≡ 4 * readers i ws = omega (arith, b.words.raws i s there, none) in
              let back : s.raw - 4 + 4 ≡ s.raw =
                omega (arith, raw_is, le-readers ws j at i, mine) in
              let less : IsQuiet (s.raw - 4) = record {
                fits = omega (arith, quiet.fits);
                no_flags = omega (arith, raw_is);
              } in
              let unlocks : Alone.unlock_shared s.raw ≡ s.raw - 4 =
                sym (ap Alone.unlock_shared back)
                ∙ unlock_shared_lem (s.raw - 4) less (omega (arith, back, quiet.fits)) in
              let run : leave key H c i m
                  ≡ done (put_shard m i (record { raw = s.raw - 4; data_ptr = s.data_ptr })) =
                rw (shares, shard_at_lem m i s there, ◌>>=◌, unlocks) in
              let no_writers : writers i (set ws j w') ≡ 0 = omega (arith, w_now, nothing, none) in
              (
                _,
                run,
                leaves_with (s.raw - 4) run less (omega (arith, no_writers, r_now, mine, raw_is))
                    no_writers,
              )
        ]

    -- A thread whose work is done drops its guard.
    pub leaves : (m' : DashMap T S) × (leave key H c i m ≡ done m') × Moved key H m ws j w w' m'
    leaves = elim (Bool-cases (is_exclusive c)) [
      | inl ex ↦ leaves_exclusive ex
      | inr shares ↦ leaves_shared shares
    ]
