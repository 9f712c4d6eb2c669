-- ===== src/Map/Access/Writing.antt =====
-- `get_mut`, `try_get_mut`, a write through a `RefMut`, and `alter`.
use dashmap.Base.{
  ℕ, ◌≡◌, refl, sym, ◌∙◌, ◌≢◌, inl, inr, Option, none, some, if◌then◌else◌, ◌==◌, arith, Bool-cases,
}
use mathlib.Core.Option
use dashmap.Base.Outcome.{done, blocked, ◌>>=◌}
use dashmap.Key.{Key}
use dashmap.Table.{HashTable}
use dashmap.Lock.Word.{one_writer}
use dashmap.TryResult.{TryResult, present, absent, locked}
use dashmap.Map.{RwLock, DashMap, RefMut, put_shard, hash_u64}
use dashmap.Map.State.{IsValid, home, contents, word, Located, located}
use dashmap.Map.Guards.{
  write_lem, write_free, write_taken, try_write_lem, drop_write_lem, drop_write_same,
  put_shard-put_shard, shard_at-put_shard, exclusive,
}
use dashmap.Map.Search.{IsAt, search_shard_lem}
use dashmap.Map.Tables.{write-Rewrites}
use dashmap.Map.Updates.{Updated, released-Updated, unchanged-Updated}
use dashmap.Map.Access.{get_mut, try_get_mut, set_value, alter, drop_ref_mut, pair_mut}

module _ {ℓ} {K V S : Type ℓ} (key : Key K S) (H : HashTable (K × V)) where
  open H use {T, slots}

  -- What a `RefMut` is good for: it holds the pair under the key; dropped at once it gives back the
  -- map as it was, and after a write a map that is changed under this key alone.
  pub record Borrows (m : DashMap T S) (k : K) (r : RefMut K V) (m' : DashMap T S) : Type ℓ where
    pub reads : contents key H m k ≡ some (pair_mut key H r)
    pub drop : drop_ref_mut key H r m' ≡ done m
    pub write :
        (v : V)
        → (m'' : DashMap T S) × ((set_value key H r v m' >>= λ w. drop_ref_mut key H w.0 w.1)
            ≡ done m'')
          × Updated key H m k (some (r.k, v)) m''

  abbrev pub GetsMut : DashMap T S → K → Option (RefMut K V) → DashMap T S → Type ℓ
  GetsMut m k none m' = (contents key H m k ≡ none) × (m' ≡ m)
  GetsMut m k (some r) m' = Borrows m k r m'

  module _ (m : DashMap T S) (k : K) (valid : IsValid key H m) where
    abbrev loc : Located key H m k
    loc = located key H m k valid

    abbrev idx : ℕ
    idx = home key H m k

    abbrev s : RwLock T
    s = loc.s

    abbrev held : DashMap T S
    held = put_shard m idx (exclusive m idx s loc.at)

    borrow :
        (free : s.raw ≡ 0) (i : ℕ) (k' : K) (v : V)
        → IsAt key H (key.hash m.hasher k) k s.data_ptr i k' v
        → Borrows m k (record { guard = idx; pos = i; k = k'; v = v }) held
    unfolding set_value
    borrow free i k' v hit = record {
      reads = loc.holds ∙ hit.found;
      drop = drop_write_same m idx s loc.at free;
      write = λ v'.
          let t = s.data_ptr in
          let t' = H.write t i (k', v') in
          let hash = key.hash m.hasher k in
          let rewritten =
            write-Rewrites key H m.hasher m.shift idx t i hash k' k' k v v' loc.ok hit.at hit.found
              hit.same (key.equal_refl k') in
          let taken = exclusive m idx s loc.at in
          (
            put_shard m idx (record { raw = 0; data_ptr = t' }),
            rw (
              shard_at-put_shard m idx s loc.at taken,
              ◌>>=◌,
              put_shard-put_shard m idx s loc.at taken (record { raw = one_writer; data_ptr = t' }),
              drop_write_lem m idx s loc.at t',
            ),
            released-Updated key H m valid k loc (some (k', v')) t' free rewritten,
          );
    }

    -- `get_mut` on a valid map whose shard for the key is not locked lends the pair under the key:
    -- dropped at once it gives back the map as it was, and after a write a map with the new value
    -- under the key and no other change. Where the map does not hold the key it returns nothing,
    -- with the map as it was.
    pub get_mut_lem :
        word key H m k ≡ 0
        → (r : Option (RefMut K V)) × (m' : DashMap T S) × (get_mut key H m k ≡ done (r, m'))
          × GetsMut m k r m'
    unfolding get_mut
    get_mut_lem free =
        let unlocked : s.raw ≡ 0 = sym loc.locked ∙ free in
        let locks = write_free m idx s loc.at loc.quiet unlocked in
        elim (search_shard_lem key H m.hasher m.shift idx s.data_ptr k loc.ok) [
          | inl miss ↦ (
            none,
            m,
            rw (loc.run, locks, ◌>>=◌, hash_u64, miss.run, drop_write_same m idx s loc.at unlocked),
            (loc.holds ∙ miss.absent, refl),
          )
          | inr (i, k', v, hit) ↦ (
            some (record { guard = idx; pos = i; k = k'; v = v }),
            held,
            rw (loc.run, locks, ◌>>=◌, hash_u64, hit.run),
            borrow unlocked i k' v hit,
          )
        ]

    -- `get_mut` waits where any lock of the shard is held.
    pub get_mut_blocked : word key H m k ≢ 0 → get_mut key H m k ≡ blocked
    unfolding get_mut
    get_mut_blocked taken =
        rw (loc.run, write_taken m idx s loc.at loc.quiet (λ e. taken (loc.locked ∙ e)))

    -- A `try_get_mut` is the `get_mut` that does not wait.
    abbrev pub to_try : Option (RefMut K V) → TryResult (RefMut K V)
    to_try none = absent
    to_try (some r) = present r

    -- `try_get_mut` on a valid map answers `locked`, with the map as it was, where any lock of the
    -- shard of the key is held, and is `get_mut` otherwise.
    pub try_get_mut_lem : try_get_mut key H m k ≡ (
        if word key H m k == 0
        then get_mut key H m k >>= (λ r. done (to_try r.0, r.1))
        else done (locked, m))
    unfolding get_mut try_get_mut
    try_get_mut_lem = elim (Bool-cases (s.raw == 0)) [
      | inr full ↦ rw (loc.locked, full, loc.run, try_write_lem m idx s loc.at loc.quiet, full)
      | inl room ↦
          rw
            (
              loc.locked,
              room,
              loc.run,
              try_write_lem m idx s loc.at loc.quiet,
              room,
              write_lem m idx s loc.at loc.quiet,
              room,
              ◌>>=◌,
            )
            (ground (arith, hash_u64 key H m k))
    ]

    -- `alter` on a valid map whose shard for the key is not locked puts what the closure makes of
    -- the pair under the key in the place of its value, and leaves the rest of the map as it was,
    -- and all of it where it does not hold the key.
    pub alter_lem :
        (f : K → V → V)
        → word key H m k ≡ 0
        → (m' : DashMap T S) × (alter key H m k f ≡ done m')
          × Updated key H m k (Option.map (λ e. (e.0, f e.0 e.1)) (contents key H m k)) m'
    unfolding alter
    alter_lem f free = from (get_mut_lem free)
      where
        from :
            (r : Option (RefMut K V)) × (m' : DashMap T S) × (get_mut key H m k ≡ done (r, m'))
              × GetsMut m k r m'
            → (m' : DashMap T S) × (alter key H m k f ≡ done m')
              × Updated key H m k (Option.map (λ e. (e.0, f e.0 e.1)) (contents key H m k)) m'
        from (none, m', run, (missing, same)) =
            (m, rw (run, same), rw missing (unchanged-Updated key H m k none valid missing))
        from (some r, m', run, b) =
            let (m'', w, u) = b.write (f r.k r.v) in (m'', rw run w, rw b.reads u)
