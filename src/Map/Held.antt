-- ===== src/Map/Held.antt =====
-- A free shard whose write lock has been taken: what the steps of an operation do with it.
use dashmap.Base.{ℕ, ◌≡◌, sym, ◌∙◌, fun_ext, inl, inr, Option, none, some, get_elem?, Option-cases}
use dashmap.Base.Outcome.{Outcome, done, ◌>>=◌}
use dashmap.Key.{Key}
use dashmap.Lock.Word.{one_writer}
use dashmap.Table.{HashTable}
use dashmap.Map.{RwLock, DashMap, put_shard, shard_at, store, drop_write, hash_u64, search_shard}
use dashmap.Map.State.{IsValid, home, word, located}
use dashmap.Map.Guards.{
  shard_at-put_shard, put_shard-put_shard, store_lem, drop_write_lem, write_free,
}
use dashmap.Map.Entry.{Entry, occupied, vacant, table_entry, entry}

module _ {ℓ} {T S : Type ℓ} (m : DashMap T S) (i : ℕ) (s : RwLock T)
    (at : get_elem? m.shards i ≡ some s) where
  -- the shard locked, with a table; and with the lock let go
  abbrev pub held : T → DashMap T S
  held t = put_shard m i (record { raw = one_writer; data_ptr = t })

  abbrev pub freed : T → DashMap T S
  freed t = put_shard m i (record { raw = 0; data_ptr = t })

  pub shard_at-held :
      (t : T) → shard_at (held t) i ≡ done (record { raw = one_writer; data_ptr = t })
  shard_at-held t = shard_at-put_shard m i s at (record { raw = one_writer; data_ptr = t })

  pub store-held : (t t' : T) → store i t' (held t) ≡ done (held t')
  store-held t t' = store_lem m i s at (record { raw = one_writer; data_ptr = t }) t'

  pub put_shard-held :
      (t t' : T) → put_shard (held t) i (record { raw = one_writer; data_ptr = t' }) ≡ held t'
  put_shard-held t t' =
      put_shard-put_shard m i s at (record { raw = one_writer; data_ptr = t })
        (record { raw = one_writer; data_ptr = t' })

  pub drop_write-held : (t : T) → drop_write i (held t) ≡ done (freed t)
  drop_write-held t = drop_write_lem m i s at t

  -- a guard dropped after a write, before anything else
  pub stored {κ} :
      {B : Type κ} (f : DashMap T S → Outcome B) (t t' : T)
      → (drop_write i (put_shard (held t) i (record { raw = one_writer; data_ptr = t' })) >>= f)
        ≡ f (freed t')
  stored f t t' = rw (put_shard-held t t', drop_write-held t', ◌>>=◌)

  pub stored_last :
      (t t' : T)
      → drop_write i (put_shard (held t) i (record { raw = one_writer; data_ptr = t' }))
        ≡ done (freed t')
  stored_last t t' = rw (put_shard-held t t', drop_write-held t')

module _ {ℓ} {K V S : Type ℓ} (key : Key K S) (H : HashTable (K × V)) where
  open H use {T, slots}

  -- What a search of the table makes of a call of its `entry`.
  abbrev pub entry_of : ℕ → ℕ → K → Option (ℕ × (K × V)) → Entry K V
  entry_of idx hash k none = vacant (record { shard = idx; key = k; hash = hash })
  entry_of idx hash k (some (i, e)) = occupied (record { shard = idx; pos = i; entry = e; key = k })

  pub table_entry_lem :
      (t : T) (idx hash : ℕ) (k : K)
      → table_entry key H t idx hash k ≡ entry_of idx hash k (search_shard key H t hash k)
  unfolding table_entry search_shard
  table_entry_lem t idx hash k =
      let turned : (λ (e : K × V). key.equal e.0 k) ≡ (λ e. key.equal k e.0) =
        fun_ext (λ e. key.equal_symm e.0 k) in
      rw (table_entry, search_shard, turned)
        (elim (Option-cases (H.find t hash (λ e. key.equal k e.0))) [
          | inl missing ↦ rw (missing, entry_of)
          | inr (i, hit) ↦ elim (Option-cases (get_elem? (slots t) i)) [
            | inl out ↦ rw (hit, out, entry_of)
            | inr (e, at) ↦ rw (hit, at, entry_of)
          ]
        ])

  module _ (m : DashMap T S) (k : K) (valid : IsValid key H m) (unlocked : word key H m k ≡ 0) where
    -- `entry` takes the lock of the shard and searches its table.
    pub entry_run :
        let loc = located key H m k valid in
        entry key H m k
        ≡ done (
          entry_of
              (home key H m k)
              (key.hash m.hasher k)
              k
              (search_shard key H loc.s.data_ptr (key.hash m.hasher k) k),
          held m (home key H m k) loc.s loc.at loc.s.data_ptr,
        )
    unfolding entry hash_u64
    entry_run =
        let loc = located key H m k valid in
        rw (
          loc.run,
          ◌>>=◌,
          write_free m (home key H m k) loc.s loc.at loc.quiet (sym loc.locked ∙ unlocked),
          table_entry_lem loc.s.data_ptr (home key H m k) (key.hash m.hasher k) k,
        )
