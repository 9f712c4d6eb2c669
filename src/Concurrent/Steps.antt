-- ===== src/Concurrent/Steps.antt =====
-- The steps of a thread, and the first of a call: it keeps what is true between steps.
pub mod Working
pub mod Leaving
use dashmap.Base.{
  ℕ, zero, suc, ◌+◌, ◌-◌, ◌*◌, ◌≤◌, ◌<◌, ◌^◌, ◌≡◌, ◌≢◌, ◌⊎◌, refl, sym, ◌∙◌, ap, subst, inl, inr,
  Bool, true, false, Bool-cases, some, List, [], ◌∷◌, map, length, get_elem?, set, lt→ltb,
  get_elem?-set_self, lt_of_get_elem?, eq→==, ne→==, if◌then◌else◌, to_nat, ◌==◌, arith, ltb,
}
use dashmap.Base.Outcome.{Outcome, done, blocked, panicked, ◌>>=◌}
use dashmap.Key.{Key}
use dashmap.Lock.Alone
use dashmap.Lock.Quiet.{IsQuiet, unlock_shared_lem, unlock_exclusive_lem, lock_shared_lem}
use dashmap.Lock.Word.{one_writer}
use dashmap.Table.{HashTable}
use dashmap.Map.{RwLock, DashMap, put_shard, hash_u64, store, drop_read, drop_write, read, write}
use dashmap.Map.Guards.{shard_at_lem, put_shard_same, write_free, write_taken, read_lem}
use dashmap.Map.State.{IsValid, home, Located, located}
use dashmap.Rayon.Released.{released, released_take}
use dashmap.Concurrent.{
  Call, Reply, key_of, is_exclusive, Thread, outside, inside, leaving, enter, finish, leave,
  advance, call_next,
}
use dashmap.Concurrent.Guards.{
  writes, reads, writers, readers, writers-set, readers-set, le-writers, le-readers, add-le-writers,
  Alone, Words,
}
use dashmap.Concurrent.Sections.{made_of}
use dashmap.Concurrent.Sections.Whole.{reads_only}
use dashmap.Concurrent.Seen.{seen_thread, released-put_shard, happens}
use dashmap.Concurrent.Between.{Fetched, Between, stepped}

module _ {ℓ} {T K V : Type ℓ} where
  -- the steps that a thread has left
  abbrev pub left : Thread T K V → ℕ
  left (outside cs rs) = 3 * length cs
  left (inside c idx t cs rs) = 3 * length cs + 2
  left (leaving c idx cs rs) = 3 * length cs + 1

module _ {ℓ} {K V S : Type ℓ} (key : Key K S) (H : HashTable (K × V)) where
  open H use {T, slots}

  -- what a step shows: a whole call where the work is done, and else nothing
  abbrev pub Shows : Thread T K V → Thread T K V → DashMap T S → DashMap T S → Type ℓ
  Shows (outside cs rs) w' m m' = (seen_thread w' ≡ outside cs rs) × (released m' ≡ released m)
  Shows (inside c idx t cs rs) w' m m' =
      call_next key H (outside (c ∷ cs) rs) (released m) ≡ done (seen_thread w', released m')
  Shows (leaving c idx cs rs) w' m m' =
      (seen_thread w' ≡ outside cs rs) × (released m' ≡ released m)

  pub record Moved (m : DashMap T S) (ws : List (Thread T K V)) (j : ℕ) (w w' : Thread T K V)
      (m' : DashMap T S) : Type ℓ where
    pub between : Between key H m' (set ws j w')
    pub shows : Shows w w' m m'
    pub fewer : left w ≡ suc (left w')

  module _ (m : DashMap T S) (ws : List (Thread T K V)) (b : Between key H m ws) (j : ℕ) where
    -- A thread that starts a call takes the lock for writes where nobody has the lock of the shard.
    pub enters_exclusive :
        (c : Call K V) (cs : List (Call K V)) (rs : List (Reply K V))
        → let l = located key H m (key_of c) b.valid in
          let i = home key H m (key_of c) in
          let m' = put_shard m i (record { raw = one_writer; data_ptr = l.s.data_ptr }) in
          get_elem? ws j ≡ some (outside (c ∷ cs) rs)
          → is_exclusive c ≡ true
          → l.s.raw ≡ 0
          → (enter key H c m ≡ done (i, l.s.data_ptr, m'))
            × Moved m ws j (outside (c ∷ cs) rs) (inside c i l.s.data_ptr cs rs) m'
    unfolding enter hash_u64
    enters_exclusive c cs rs at ex free =
        let l = located key H m (key_of c) b.valid in
        let i = home key H m (key_of c) in
        let w : Thread T K V = outside (c ∷ cs) rs in
        let w' = inside c i l.s.data_ptr cs rs in
        let s' : RwLock T = record { raw = one_writer; data_ptr = l.s.data_ptr } in
        let raw_is = b.words.raws i l.s l.at in
        let w_now = writers-set ws j w' at i in
        let r_now = readers-set ws j w' at i in
        let one : writers i (set ws j w') ≡ 1 =
          ground (arith, w_now, ex, eq→== i i refl, raw_is, free) in
        let none : readers i (set ws j w') ≡ 0 = ground (arith, r_now, ex, raw_is, free) in
        (
          rw (l.run, ◌>>=◌, ex, write_free m i l.s l.at l.quiet free),
          record {
            between =
                stepped key H m ws b j w w' at i l.s s' l.at
                  (record { fits = omega arith; no_flags = refl }) l.ok (omega (arith, one, none))
                  (inr (one, none)) (λ n ne. (ground (arith, ex, ne→== i n ne), ground (arith, ex)))
                  (
                    s',
                    refl,
                    get_elem?-set_self m.shards i s' (lt_of_get_elem? m.shards i l.at),
                    refl,
                  )
                  (λ n u at' ne. inr refl);
            shows = (refl, released_take m i l.s one_writer l.at);
            fewer = omega arith;
          },
        )

    -- A shard whose word has room for a reader has no writer.
    pub no_writer :
        (i : ℕ) (s : RwLock T)
        → get_elem? m.shards i ≡ some s
        → s.raw + 8 < 2 ^ 64
        → writers i ws ≡ 0
    no_writer i s there room = elim (b.words.alone i) [
      | inl none ↦ none
      | inr (one, none) ↦ absurd (omega (arith, b.words.raws i s there, one, none))
    ]

    -- It takes the lock for reads where there is room for a reader.
    pub enters_shared :
        (c : Call K V) (cs : List (Call K V)) (rs : List (Reply K V))
        → let l = located key H m (key_of c) b.valid in
          let i = home key H m (key_of c) in
          let m' = put_shard m i (record { raw = l.s.raw + 4; data_ptr = l.s.data_ptr }) in
          get_elem? ws j ≡ some (outside (c ∷ cs) rs)
          → is_exclusive c ≡ false
          → l.s.raw + 8 < 2 ^ 64
          → (enter key H c m ≡ done (i, l.s.data_ptr, m'))
            × Moved m ws j (outside (c ∷ cs) rs) (inside c i l.s.data_ptr cs rs) m'
    unfolding enter hash_u64
    enters_shared c cs rs at ex room =
        let l = located key H m (key_of c) b.valid in
        let i = home key H m (key_of c) in
        let w : Thread T K V = outside (c ∷ cs) rs in
        let w' = inside c i l.s.data_ptr cs rs in
        let s' : RwLock T = record { raw = l.s.raw + 4; data_ptr = l.s.data_ptr } in
        let w_now = writers-set ws j w' at i in
        let r_now = readers-set ws j w' at i in
        let none : writers i (set ws j w') ≡ 0 =
          ground (arith, w_now, ex, no_writer i l.s l.at room) in
        let more : readers i (set ws j w') ≡ suc (readers i ws) =
          ground (arith, r_now, ex, eq→== i i refl) in
        (
          rw (l.run, ◌>>=◌, ex, read_lem m i l.s l.at l.quiet room),
          record {
            between =
                stepped key H m ws b j w w' at i l.s s' l.at
                  (record { fits = omega arith; no_flags = omega (arith, l.quiet.no_flags) }) l.ok
                  (omega (arith, none, more, b.words.raws i l.s l.at, no_writer i l.s l.at room))
                  (inl none) (λ n ne. (ground (arith, ex), ground (arith, ex, ne→== i n ne)))
                  (
                    s',
                    refl,
                    get_elem?-set_self m.shards i s' (lt_of_get_elem? m.shards i l.at),
                    refl,
                  )
                  (λ n u at' ne. inr refl);
            shows = (refl, released_take m i l.s (l.s.raw + 4) l.at);
            fewer = omega arith;
          },
        )
