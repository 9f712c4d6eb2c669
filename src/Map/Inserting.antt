-- ===== src/Map/Inserting.antt =====
-- The operations that go through an entry, run from the call of `entry` to the drop of the guard.
use dashmap.Base.{ℕ, ◌≡◌, refl, sym, ◌∙◌, ◌⊎◌, ◌≢◌, inl, inr, true, Option, none, some}
use mathlib.Core.Option
use dashmap.Base.Outcome.{Outcome, done, blocked, ◌>>=◌}
use dashmap.Key.{Key}
use dashmap.Lock.Word.{one_writer}
use dashmap.Table.{HashTable}
use dashmap.Map.{DashMap, RefMut, put_shard, rehash}
use dashmap.Map.State.{IsValid, home, contents, word, Located, located}
use dashmap.Map.Guards.{write_taken, drop_write_same}
use dashmap.Map.Search.{search_shard_lem}
use dashmap.Map.Tables.{write-Rewrites, remove-Rewrites, insert-Rewrites}
use dashmap.Map.Updates.{Updated, released-Updated, unchanged-Updated}
use dashmap.Map.Access.{pair_mut, drop_ref_mut}
use dashmap.Map.Occupied
use dashmap.Map.Vacant
use dashmap.Map.Entry.{occupied, vacant, entry, and_modify, or_insert, insert}
use dashmap.Map.Held.{held, freed, entry_run, shard_at-held, stored, stored_last}

module _ {ℓ} {K V S : Type ℓ} (key : Key K S) (H : HashTable (K × V)) (m : DashMap H.T S) (k : K)
    (valid : IsValid key H m) where
  open H use {T, slots}

  abbrev pub loc : Located key H m k
  loc = located key H m k valid

  abbrev pub idx : ℕ
  idx = home key H m k

  abbrev pub hash : ℕ
  hash = key.hash m.hasher k

  abbrev pub t : T
  t = loc.s.data_ptr

  abbrev pub with_lock : T → DashMap T S
  with_lock = held m idx loc.s loc.at

  abbrev pub let_go : T → DashMap T S
  let_go = freed m idx loc.s loc.at

  -- the table with a new entry, and the place of the entry
  abbrev pub grown : V → T × ℕ
  grown v = H.insert t hash (k, v) (rehash key H (with_lock t))

  pub record IsVacant : Type ℓ where
    pub run :
        entry key H m k ≡ done (vacant (record { shard = idx; key = k; hash = hash }), with_lock t)
    pub missing : contents key H m k ≡ none
    pub inserted : (v : V) → Updated key H m k (some (k, v)) (let_go (grown v).0)

  pub record IsOccupied (i : ℕ) (k' : K) (v : V) : Type ℓ where
    pub run :
        entry key H m k
        ≡ done (occupied (record { shard = idx; pos = i; entry = (k', v); key = k }), with_lock t)
    pub there : contents key H m k ≡ some (k', v)
    pub same : key.equal k' k ≡ true
    pub wrote :
        (j : K) (u : V)
        → key.equal k' j ≡ true
        → Updated key H m k (some (j, u)) (let_go (H.write t i (j, u)))
    pub removed : Updated key H m k none (let_go (H.remove t i))

  -- A call of `entry` on a free shard gives a vacant or an occupied entry.
  pub entering : word key H m k ≡ 0 → IsVacant ⊎ ((i : ℕ) × (k' : K) × (v : V) × IsOccupied i k' v)
  entering free =
      let unlocked = sym loc.locked ∙ free in
      let run = entry_run key H m k valid free in
      elim (search_shard_lem key H m.hasher m.shift idx t k loc.ok) [
        | inl miss ↦ inl (record {
          run = run ∙ rw miss.run;
          missing = loc.holds ∙ miss.absent;
          inserted = λ v.
              released-Updated key H m valid k loc (some (k, v)) (grown v).0 unlocked
                (insert-Rewrites key H m.hasher m.shift idx t k v loc.ok refl miss.absent);
        })
        | inr (i, k', v, hit) ↦ inr (
          i,
          k',
          v,
          record {
            run = run ∙ rw hit.run;
            there = loc.holds ∙ hit.found;
            same = key.equal_symm k' k ∙ hit.same;
            wrote = λ j u e. released-Updated key H m valid k loc (some (j, u)) _ unlocked (
                write-Rewrites key H m.hasher m.shift idx t i hash k' j k v u loc.ok hit.at
                  hit.found hit.same e);
            removed = released-Updated key H m valid k loc none _ unlocked (
                remove-Rewrites key H m.hasher m.shift idx t i hash k' k v loc.ok hit.at hit.found
                  hit.same);
          },
        )
      ]

  -- the stored key where there is one, and else the key of the call
  abbrev pub key_under : Option (K × V) → K
  key_under none = k
  key_under (some e) = e.0

  -- `insert` on a valid map whose shard for the key is not locked returns the value that was under
  -- the key; the map then has the new value there, under the stored key where there was one and
  -- else under the key of the call, and is valid and for the rest as it was.
  pub insert_lem :
      (v : V)
      → word key H m k ≡ 0
      → (m' : DashMap T S) × (insert key H m k v
          ≡ done (Option.map (λ e. e.1) (contents key H m k), m'))
        × Updated key H m k (some (key_under (contents key H m k), v)) m'
  unfolding insert Occupied.insert Occupied.set_mut Occupied.replace Vacant.insert
  insert_lem v free = elim (entering free) [
    | inl e ↦ (
      let_go (grown v).0,
      rw (e.run, ◌>>=◌, shard_at-held m idx loc.s loc.at t, e.missing)
          (stored m idx loc.s loc.at (λ n. done (none, n)) t (grown v).0),
      rw e.missing (e.inserted v),
    )
    | inr (i, k', u, o) ↦
        let t' = H.write t i (k', v) in
        (
          let_go t',
          rw (o.run, ◌>>=◌, shard_at-held m idx loc.s loc.at t, o.there)
              (stored m idx loc.s loc.at (λ n. done (some u, n)) t t'),
          rw o.there (o.wrote k' v (key.equal_refl k')),
        )
  ]

  -- `insert` waits while any lock of the shard is held.
  pub insert_blocked : (v : V) → word key H m k ≢ 0 → insert key H m k v ≡ blocked
  unfolding insert entry
  insert_blocked v taken =
      rw (loc.run, ◌>>=◌, write_taken m idx loc.s loc.at loc.quiet (λ e. taken (loc.locked ∙ e)))

  -- what `or_insert` refers to
  abbrev pub or_new : V → Option (K × V) → K × V
  or_new v none = (k, v)
  or_new v (some x) = x

  -- A reference that a call returned with a locked map: the pair it reads, and what the map is
  -- changed to when the reference is dropped.
  pub record Lent (x : K × V) (run : Outcome (RefMut K V × DashMap T S)) : Type ℓ where
    pub r : RefMut K V
    pub m' : DashMap T S
    pub runs : run ≡ done (r, m')
    pub reads : pair_mut key H r ≡ x
    pub m'' : DashMap T S
    pub dropped : drop_ref_mut key H r m' ≡ done m''
    pub updated : Updated key H m k (some x) m''

  -- `entry(k).or_insert(v)` on a valid map whose shard for the key is not locked refers to the pair
  -- under the key, and to the new pair of `k` and `v` where there was none; once the reference is
  -- dropped the map has that pair under the key, and no other change.
  pub or_insert_lem :
      (v : V)
      → word key H m k ≡ 0
      → Lent (or_new v (contents key H m k)) (entry key H m k >>= (λ e. or_insert key H e.0 v e.1))
  unfolding or_insert Vacant.insert
  or_insert_lem v free = elim (entering free) [
    | inl e ↦ rw e.missing (record {
      r = record { guard = idx; pos = (grown v).1; k = k; v = v };
      m' = put_shard (with_lock t) idx (record { raw = one_writer; data_ptr = (grown v).0 });
      runs = rw (e.run, ◌>>=◌, shard_at-held m idx loc.s loc.at t);
      reads = refl;
      m'' = let_go (grown v).0;
      dropped = stored_last m idx loc.s loc.at t (grown v).0;
      updated = e.inserted v;
    })
    | inr (i, k', u, o) ↦ rw o.there (record {
      r = record { guard = idx; pos = i; k = k'; v = u };
      m' = with_lock t;
      runs = rw (o.run, ◌>>=◌);
      reads = refl;
      m'' = m;
      dropped = drop_write_same m idx loc.s loc.at (sym loc.locked ∙ free);
      updated = unchanged-Updated key H m k (some (k', u)) valid o.there;
    })
  ]

  -- the pair that `and_modify` and `or_insert` leave
  abbrev pub or_modified : (V → V) → V → Option (K × V) → K × V
  or_modified f v none = (k, v)
  or_modified f v (some x) = (x.0, f x.1)

  -- `entry(k).and_modify(f).or_insert(v)` on a valid map whose shard for the key is not locked: the
  -- value under the key is changed by `f`, and where there was none `v` is put there under `k`; the
  -- reference reads the new pair, and once it is dropped the map has no other change.
  pub and_modify-or_insert :
      (f : V → V) (v : V)
      → word key H m k ≡ 0
      → Lent (or_modified f v (contents key H m k)) (
          entry key H m k
          >>= (λ e. and_modify key H e.0 f e.1)
          >>= (λ e. or_insert key H e.0 v e.1))
  unfolding or_insert and_modify Vacant.insert Occupied.set_mut Occupied.replace
  and_modify-or_insert f v free = elim (entering free) [
    | inl e ↦ rw e.missing (record {
      r = record { guard = idx; pos = (grown v).1; k = k; v = v };
      m' = put_shard (with_lock t) idx (record { raw = one_writer; data_ptr = (grown v).0 });
      runs = rw (e.run, ◌>>=◌, shard_at-held m idx loc.s loc.at t);
      reads = refl;
      m'' = let_go (grown v).0;
      dropped = stored_last m idx loc.s loc.at t (grown v).0;
      updated = e.inserted v;
    })
    | inr (i, k', u, o) ↦
        let t' = H.write t i (k', f u) in
        rw o.there (record {
          r = record { guard = idx; pos = i; k = k'; v = f u };
          m' = put_shard (with_lock t) idx (record { raw = one_writer; data_ptr = t' });
          runs = rw (o.run, ◌>>=◌, shard_at-held m idx loc.s loc.at t);
          reads = refl;
          m'' = let_go t';
          dropped = stored_last m idx loc.s loc.at t t';
          updated = o.wrote k' (f u) (key.equal_refl k');
        })
  ]
