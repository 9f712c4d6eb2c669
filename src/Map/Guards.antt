-- ===== src/Map/Guards.antt =====
-- Taking and dropping the lock of a shard, and writing behind it.
use dashmap.Base.{
  ℕ, ◌+◌, ◌^◌, ◌<◌, ◌≡◌, refl, ◌∙◌, ap, some, none, get_elem?, set-set, set_same,
  get_elem?-set_self, lt_of_get_elem?, lt→ltb, eq→==, ne→==, ◌≢◌, arith, if◌then◌else◌, ltb, ◌==◌,
}
use dashmap.Base.Outcome.{done, blocked, ◌>>=◌}
use dashmap.Lock.Quiet.{
  IsQuiet, lock_exclusive_lem, lock_shared_lem, try_lock_exclusive_lem, try_lock_shared_lem,
  unlock_exclusive_lem, unlock_shared_lem,
}
use dashmap.Lock.Word.{one_writer}
use dashmap.Map.{
  RwLock, DashMap, shard_at, put_shard, read, write, try_read, try_write, drop_read, drop_write,
  store,
}

module _ {ℓ} {T S : Type ℓ} (m : DashMap T S) (i : ℕ) (s : RwLock T)
    (at : get_elem? m.shards i ≡ some s) where
  pub shard_at_lem : shard_at m i ≡ done s
  unfolding shard_at
  shard_at_lem = rw (at, shard_at)

  pub shard_at-put_shard : (s' : RwLock T) → shard_at (put_shard m i s') i ≡ done s'
  unfolding shard_at
  shard_at-put_shard s' =
      rw (get_elem?-set_self m.shards i s' (lt_of_get_elem? m.shards i at), shard_at)

  pub put_shard-put_shard : (a b : RwLock T) → put_shard (put_shard m i a) i b ≡ put_shard m i b
  put_shard-put_shard a b =
      ap (λ l. record { shift = m.shift; shards = l; hasher = m.hasher }) (set-set m.shards i a b)

  pub put_shard_same : put_shard m i s ≡ m
  put_shard_same =
      ap (λ l. record { shift = m.shift; shards = l; hasher = m.hasher }) (set_same m.shards i s at)

  -- the shard with the lock taken once more, or exclusively
  abbrev pub shared : RwLock T
  shared = record s { raw = s.raw + 4 }

  abbrev pub exclusive : RwLock T
  exclusive = record s { raw = one_writer }

  pub read_lem :
      IsQuiet s.raw → s.raw + 8 < 2 ^ 64 → read m i ≡ done (s.data_ptr, put_shard m i shared)
  unfolding read
  read_lem q h = rw (shard_at_lem, lock_shared_lem s.raw q, lt→ltb (s.raw + 8) (2 ^ 64) h)

  pub read_blocked : s.raw ≡ one_writer → read m i ≡ blocked
  unfolding read
  read_blocked e =
      rw (
        shard_at_lem,
        e,
        lock_shared_lem one_writer (record { fits = omega arith; no_flags = refl }),
      )

  pub write_lem :
      IsQuiet s.raw
      → write m i ≡ (if s.raw == 0 then done (s.data_ptr, put_shard m i exclusive) else blocked)
  unfolding write
  write_lem q = rw (shard_at_lem, lock_exclusive_lem s.raw q) (ground arith)

  pub write_free :
      IsQuiet s.raw → s.raw ≡ 0 → write m i ≡ done (s.data_ptr, put_shard m i exclusive)
  write_free q free = rw (write_lem q, eq→== s.raw 0 free)

  pub write_taken : IsQuiet s.raw → s.raw ≢ 0 → write m i ≡ blocked
  write_taken q taken = rw (write_lem q, ne→== s.raw 0 taken)

  pub try_read_lem :
      IsQuiet s.raw
      → try_read m i
        ≡ done (if ltb (s.raw + 8) (2 ^ 64) then some (s.data_ptr, put_shard m i shared) else none)
  unfolding try_read
  try_read_lem q = rw (shard_at_lem, ◌>>=◌, try_lock_shared_lem s.raw q) (ground arith)

  pub try_write_lem :
      IsQuiet s.raw
      → try_write m i
        ≡ done (if s.raw == 0 then some (s.data_ptr, put_shard m i exclusive) else none)
  unfolding try_write
  try_write_lem q = rw (shard_at_lem, ◌>>=◌, try_lock_exclusive_lem s.raw q) (ground arith)

  -- A read lock that is dropped leaves no trace.
  pub drop_read_lem :
      IsQuiet s.raw → s.raw + 8 < 2 ^ 64 → drop_read i (put_shard m i shared) ≡ done m
  unfolding drop_read
  drop_read_lem q h = rw (
    shard_at-put_shard shared,
    unlock_shared_lem s.raw q (omega arith),
    put_shard-put_shard shared s,
    put_shard_same,
  )

  pub store_lem :
      (a : RwLock T) (t : T)
      → store i t (put_shard m i a) ≡ done (put_shard m i (record a { data_ptr = t }))
  unfolding store
  store_lem a t = rw (shard_at-put_shard a, put_shard-put_shard a (record a { data_ptr = t }))

  pub drop_write_lem :
      (t : T)
      → drop_write i (put_shard m i (record { raw = one_writer; data_ptr = t }))
        ≡ done (put_shard m i (record { raw = 0; data_ptr = t }))
  unfolding drop_write
  drop_write_lem t = rw (
    shard_at-put_shard (record { raw = one_writer; data_ptr = t }),
    unlock_exclusive_lem,
    put_shard-put_shard (record { raw = one_writer; data_ptr = t })
        (record { raw = 0; data_ptr = t }),
  )

  -- The same where the table was not written.
  pub drop_write_same : s.raw ≡ 0 → drop_write i (put_shard m i exclusive) ≡ done m
  drop_write_same e = drop_write_lem s.data_ptr ∙ rw (← e, put_shard_same)
