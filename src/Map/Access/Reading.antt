-- ===== src/Map/Access/Reading.antt =====
-- `get`, `try_get`, `contains_key` and `view`: what they return, and what they leave of the locks.
use dashmap.Base.{
  ℕ, ◌+◌, ◌^◌, ◌<◌, ◌≡◌, refl, sym, ◌∙◌, inl, inr, Option, none, some, if◌then◌else◌, ltb, is_some,
  ltb→lt, arith, Bool-cases,
}
use mathlib.Core.Option
use dashmap.Base.Outcome.{done, blocked, ◌>>=◌}
use dashmap.Key.{Key}
use dashmap.Table.{HashTable}
use dashmap.Lock.Word.{one_writer}
use dashmap.TryResult.{TryResult, present, absent, locked}
use dashmap.Map.{RwLock, DashMap, Ref, put_shard, hash_u64}
use dashmap.Map.State.{IsValid, home, contents, word, Located, located}
use dashmap.Map.Guards.{read_lem, read_blocked, try_read_lem, drop_read_lem, shared}
use dashmap.Map.Search.{search_shard_lem}
use dashmap.Map.Access.{get, try_get, contains_key, view, drop_ref, pair}

module _ {ℓ} {K V S : Type ℓ} (key : Key K S) (H : HashTable (K × V)) where
  open H use {T, slots}

  -- What `get` returns when it returns: nothing, with the locks as they were, or a reference to the
  -- pair under the key, whose drop gives back the map as it was.
  abbrev pub Gets : DashMap T S → K → Option (Ref K V) → DashMap T S → Type ℓ
  Gets m k none m' = (contents key H m k ≡ none) × (m' ≡ m)
  Gets m k (some r) m' = (contents key H m k ≡ some (pair key H r)) × (drop_ref key H r m' ≡ done m)

  module _ (m : DashMap T S) (k : K) (valid : IsValid key H m) where
    abbrev loc : Located key H m k
    loc = located key H m k valid

    abbrev idx : ℕ
    idx = home key H m k

    abbrev s : RwLock T
    s = loc.s

    abbrev held : DashMap T S
    held = put_shard m idx (shared m idx s loc.at)

    -- `get` on a valid map returns where the shard of the key has no writer and room for one more
    -- reader: a reference to the pair under the key, whose drop gives back the map as it was, or
    -- nothing where there is none, with the map as it was.
    pub get_lem :
        word key H m k + 8 < 2 ^ 64
        → (r : Option (Ref K V)) × (m' : DashMap T S) × (get key H m k ≡ done (r, m'))
          × Gets m k r m'
    unfolding get
    get_lem free =
        let room : s.raw + 8 < 2 ^ 64 = rw (← loc.locked) free in
        let dropped = drop_read_lem m idx s loc.at loc.quiet room in
        let locks = read_lem m idx s loc.at loc.quiet room in
        elim (search_shard_lem key H m.hasher m.shift idx s.data_ptr k loc.ok) [
          | inl miss ↦ (
            none,
            m,
            rw (loc.run, locks, ◌>>=◌, hash_u64, miss.run, dropped),
            (loc.holds ∙ miss.absent, refl),
          )
          | inr (i, k', v, hit) ↦ (
            some (record { guard = idx; k = k'; v = v }),
            held,
            rw (loc.run, locks, ◌>>=◌, hash_u64, hit.run),
            (loc.holds ∙ hit.found, dropped),
          )
        ]

    -- `get` waits where a writer alone holds the lock of the shard and nobody sleeps on it.
    pub get_blocked : word key H m k ≡ one_writer → get key H m k ≡ blocked
    unfolding get
    get_blocked taken = rw (loc.run, read_blocked m idx s loc.at (sym loc.locked ∙ taken))

    -- A `try_get` is the `get` that does not wait.
    abbrev pub to_try : Option (Ref K V) → TryResult (Ref K V)
    to_try none = absent
    to_try (some r) = present r

    -- `try_get` on a valid map answers `locked`, with the map as it was, where the shard of the key
    -- has a writer or as many readers as fit, and is `get` otherwise.
    pub try_get_lem : try_get key H m k ≡ (
        if ltb (word key H m k + 8) (2 ^ 64)
        then get key H m k >>= (λ r. done (to_try r.0, r.1))
        else done (locked, m))
    unfolding get try_get
    try_get_lem = elim (Bool-cases (ltb (s.raw + 8) (2 ^ 64))) [
      | inr full ↦ rw (loc.locked, full, loc.run, try_read_lem m idx s loc.at loc.quiet, full)
      | inl room ↦
          let lt : s.raw + 8 < 2 ^ 64 = ltb→lt _ _ room in
          rw
            (
              loc.locked,
              room,
              loc.run,
              try_read_lem m idx s loc.at loc.quiet,
              room,
              read_lem m idx s loc.at loc.quiet lt,
              ◌>>=◌,
            )
            (ground (arith, hash_u64 key H m k))
    ]

    -- `contains_key` on a valid map says, where the shard of the key has no writer and room for one
    -- more reader, whether the map holds the key, and leaves the map as it was.
    pub contains_key_lem :
        word key H m k + 8 < 2 ^ 64
        → contains_key key H m k ≡ done (is_some (contents key H m k), m)
    unfolding contains_key
    contains_key_lem free = from (get_lem free)
      where
        from :
            (r : Option (Ref K V)) × (m' : DashMap T S) × (get key H m k ≡ done (r, m'))
              × Gets m k r m'
            → contains_key key H m k ≡ done (is_some (contents key H m k), m)
        from (none, m', run, (missing, same)) = rw (run, missing, same)
        from (some r, m', run, (there, drop)) = rw (run, there, ◌>>=◌, drop)

    -- `view` on a valid map returns, where the shard of the key has no writer and room for one more
    -- reader, what the closure makes of the pair under the key, and leaves the map as it was.
    pub view_lem {κ} :
        {R : Type κ} (f : K → V → R)
        → word key H m k + 8 < 2 ^ 64
        → view key H m k f ≡ done (Option.map (λ e. f e.0 e.1) (contents key H m k), m)
    unfolding view
    view_lem {R} f free = from (get_lem free)
      where
        from :
            (r : Option (Ref K V)) × (m' : DashMap T S) × (get key H m k ≡ done (r, m'))
              × Gets m k r m'
            → view key H m k f ≡ done (Option.map (λ e. f e.0 e.1) (contents key H m k), m)
        from (none, m', run, (missing, same)) = rw (run, missing, same)
        from (some r, m', run, (there, drop)) = rw (run, there, ◌>>=◌, drop)
