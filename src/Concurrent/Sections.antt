-- ===== src/Concurrent/Sections.antt =====
-- A whole call is its three steps, and what it does is what it makes of the table of its shard. Here
-- are the calls with a guard for reads.
pub mod Writing
pub mod Whole
use dashmap.Base.{
  ℕ, ◌+◌, ◌^◌, ◌<◌, ◌≡◌, refl, sym, ◌∙◌, ap, Bool, Bool-cases, Option, Option-cases, none, some,
  inl, inr, get_elem?, arith, true, false, get_elem?-set_self, lt_of_get_elem?, subst,
}
use dashmap.Base.Outcome.{Outcome, done, ◌>>=◌}
use dashmap.Key.{Key}
use dashmap.Lock.Word.{one_writer}
use dashmap.Table.{HashTable}
use dashmap.Map.{
  read, write, drop_read, drop_write, store, RwLock, DashMap, put_shard, hash_u64, rehash,
  search_shard,
}
use dashmap.Map.State.{IsValid, home, word, Located, located}
use dashmap.Map.Guards.{
  read_lem, drop_read_lem, write_free, store_lem, drop_write_lem, put_shard_same,
  put_shard-put_shard, shard_at-put_shard, shared, exclusive,
}
use dashmap.Map.Held.{entry_of, entry_run, table_entry_lem, stored}
use dashmap.Map.Access
use dashmap.Map.Entry
use dashmap.Rayon.Released.{shard_of-entry_of}
use dashmap.Rayon.Commit.{complete_lem, insert_parts, new_table, old_value}
use dashmap.Concurrent.{
  Call, get, contains_key, insert, remove, remove_if, remove_if_mut, alter, Reply, pair, value,
  flag, nothing, key_of, is_exclusive, invoke, critical, on_entry,
}

module _ {ℓ} {K V S : Type ℓ} (key : Key K S) (H : HashTable (K × V)) (m : DashMap H.T S)
    (valid : IsValid key H m) where
  open H use {T, slots}

  -- what a call makes of a table that it finds in the shard of its key
  abbrev pub made_of : Call K V → T → Reply K V × T
  made_of c t =
      critical key H c (home key H m (key_of c)) (key.hash m.hasher (key_of c)) (rehash key H m) t

  abbrev pub at_home : Call K V → RwLock T
  at_home c = (located key H m (key_of c) valid).s

  abbrev pub after : Call K V → DashMap T S
  after c =
      put_shard m (home key H m (key_of c))
        (record { raw = 0; data_ptr = (made_of c (at_home c).data_ptr).1 })

  module _ (k : K) (free : word key H m k ≡ 0) where
    abbrev loc : Located key H m k
    loc = located key H m k valid

    abbrev idx : ℕ
    idx = home key H m k

    abbrev found : Option (ℕ × (K × V))
    found = search_shard key H loc.s.data_ptr (key.hash m.hasher k) k

    abbrev pub put : T → DashMap T S
    put t = put_shard m idx (record { raw = 0; data_ptr = t })

    unlocked : loc.s.raw ≡ 0
    unlocked = sym loc.locked ∙ free

    room : loc.s.raw + 8 < 2 ^ 64
    room = omega (arith, unlocked)

    pub put_same : put loc.s.data_ptr ≡ m
    put_same =
        ap (λ (n : ℕ). put_shard m idx (record { raw = n; data_ptr = loc.s.data_ptr }))
          (sym unlocked)
        ∙ put_shard_same m idx loc.s loc.at

    pub locks : write m idx ≡ done (loc.s.data_ptr, put_shard m idx (exclusive m idx loc.s loc.at))
    locks = write_free m idx loc.s loc.at loc.quiet unlocked

    reads : read m idx ≡ done (loc.s.data_ptr, put_shard m idx (shared m idx loc.s loc.at))
    reads = read_lem m idx loc.s loc.at loc.quiet room

    let_go : drop_read idx (put_shard m idx (shared m idx loc.s loc.at)) ≡ done m
    let_go = drop_read_lem m idx loc.s loc.at loc.quiet room

    pub unlocks :
        drop_write idx (put_shard m idx (exclusive m idx loc.s loc.at)) ≡ done (put loc.s.data_ptr)
    unlocks = drop_write_lem m idx loc.s loc.at loc.s.data_ptr

    pub commits :
        (t : T)
        → drop_write idx (put_shard m idx (record { raw = one_writer; data_ptr = t }))
          ≡ done (put t)
    commits = drop_write_lem m idx loc.s loc.at

    pub stores :
        (t : T)
        → store idx t (put_shard m idx (exclusive m idx loc.s loc.at))
          ≡ done (put_shard m idx (record { raw = one_writer; data_ptr = t }))
    stores t = store_lem m idx loc.s loc.at (exclusive m idx loc.s loc.at) t

    pub get_run : invoke key H (get k) m ≡ done ((made_of (get k) loc.s.data_ptr).0, after (get k))
    unfolding invoke critical Access.get
    get_run = elim (Option-cases found) [
      | inl miss ↦
          rw (loc.run, reads, ◌>>=◌, hash_u64, miss, let_go, made_of, critical)
            (ap (λ x. done (pair none, x)) (sym put_same))
      | inr ((i, e), hit) ↦
          rw (loc.run, reads, ◌>>=◌, hash_u64, hit, let_go, made_of, critical)
            (ap (λ x. done (pair (some e), x)) (sym put_same))
    ]

    pub contains_key_run :
        invoke key H (contains_key k) m
        ≡ done ((made_of (contains_key k) loc.s.data_ptr).0, after (contains_key k))
    unfolding invoke critical Access.get Access.contains_key
    contains_key_run = elim (Option-cases found) [
      | inl miss ↦
          rw (loc.run, reads, ◌>>=◌, hash_u64, miss, let_go, made_of, critical)
            (ap (λ x. done (flag false, x)) (sym put_same))
      | inr ((i, e), hit) ↦
          rw (loc.run, reads, ◌>>=◌, hash_u64, hit, let_go, made_of, critical)
            (ap (λ x. done (flag true, x)) (sym put_same))
    ]
