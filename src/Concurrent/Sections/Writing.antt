-- ===== src/Concurrent/Sections/Writing.antt =====
-- The calls with a guard for writes, in three steps.
use dashmap.Base.{
  ℕ, ◌≡◌, refl, sym, ◌∙◌, ap, Bool, Bool-cases, Option, Option-cases, some, inl, inr, get_elem?,
  get_elem?-set_self, lt_of_get_elem?, subst,
}
use dashmap.Base.Outcome.{done, ◌>>=◌}
use dashmap.Key.{Key}
use dashmap.Lock.Word.{one_writer}
use dashmap.Table.{HashTable}
use dashmap.Map.{RwLock, DashMap, put_shard, hash_u64, rehash, search_shard}
use dashmap.Map.State.{IsValid, home, word, Located, located}
use dashmap.Map.Guards.{put_shard-put_shard, shard_at-put_shard, exclusive}
use dashmap.Map.Held.{entry_of, entry_run, table_entry_lem, stored}
use dashmap.Map.Access
use dashmap.Map.Entry
use dashmap.Rayon.Released.{shard_of-entry_of}
use dashmap.Rayon.Commit.{complete_lem, insert_parts, new_table, old_value}
use dashmap.Concurrent.{
  insert, remove, remove_if, remove_if_mut, alter, value, nothing, invoke, critical, on_entry,
}
use dashmap.Concurrent.Sections.{made_of, after, locks, unlocks, stores, commits}

module _ {ℓ} {K V S : Type ℓ} (key : Key K S) (H : HashTable (K × V)) (m : DashMap H.T S)
    (valid : IsValid key H m) where
  open H use {T, slots}

  module _ (k : K) (free : word key H m k ≡ 0) where
    abbrev loc : Located key H m k
    loc = located key H m k valid

    abbrev idx : ℕ
    idx = home key H m k

    abbrev found : Option (ℕ × (K × V))
    found = search_shard key H loc.s.data_ptr (key.hash m.hasher k) k

    pub remove_run :
        invoke key H (remove k) m
        ≡ done ((made_of key H m valid (remove k) loc.s.data_ptr).0, after key H m valid (remove k))
    unfolding invoke critical Access.remove
    remove_run = elim (Option-cases found) [
      | inl miss ↦ rw (
        loc.run,
        locks key H m valid k free,
        ◌>>=◌,
        hash_u64,
        miss,
        unlocks key H m valid k free,
        made_of,
        critical,
      )
      | inr ((i, e), hit) ↦
          let t' = H.remove loc.s.data_ptr i in
          rw (
            loc.run,
            locks key H m valid k free,
            ◌>>=◌,
            hash_u64,
            hit,
            stores key H m valid k free t',
            ◌>>=◌,
            commits key H m valid k free t',
            made_of,
            critical,
          )
    ]

    pub remove_if_run :
        (f : K → V → Bool)
        → invoke key H (remove_if k f) m
          ≡ done (
            (made_of key H m valid (remove_if k f) loc.s.data_ptr).0,
            after key H m valid (remove_if k f),
          )
    unfolding invoke critical Access.remove_if
    remove_if_run f = elim (Option-cases found) [
      | inl miss ↦ rw (
        loc.run,
        locks key H m valid k free,
        ◌>>=◌,
        hash_u64,
        miss,
        unlocks key H m valid k free,
        made_of,
        critical,
      )
      | inr ((i, (k', v)), hit) ↦
          let t' = H.remove loc.s.data_ptr i in
          elim (Bool-cases (f k' v)) [
            | inl goes ↦ rw (
              loc.run,
              locks key H m valid k free,
              ◌>>=◌,
              hash_u64,
              hit,
              goes,
              stores key H m valid k free t',
              ◌>>=◌,
              commits key H m valid k free t',
              made_of,
              critical,
            )
            | inr stays ↦ rw (
              loc.run,
              locks key H m valid k free,
              ◌>>=◌,
              hash_u64,
              hit,
              stays,
              unlocks key H m valid k free,
              made_of,
              critical,
            )
          ]
    ]

    pub remove_if_mut_run :
        (f : K → V → Bool × V)
        → invoke key H (remove_if_mut k f) m
          ≡ done (
            (made_of key H m valid (remove_if_mut k f) loc.s.data_ptr).0,
            after key H m valid (remove_if_mut k f),
          )
    unfolding invoke critical Access.remove_if_mut
    remove_if_mut_run f = elim (Option-cases found) [
      | inl miss ↦ rw (
        loc.run,
        locks key H m valid k free,
        ◌>>=◌,
        hash_u64,
        miss,
        unlocks key H m valid k free,
        made_of,
        critical,
      )
      | inr ((i, (k', v)), hit) ↦
          let changed = H.write loc.s.data_ptr i (k', (f k' v).1) in
          let t' = H.remove changed i in
          elim (Bool-cases (f k' v).0) [
            | inl goes ↦ rw (
              loc.run,
              locks key H m valid k free,
              ◌>>=◌,
              hash_u64,
              hit,
              goes,
              stores key H m valid k free t',
              ◌>>=◌,
              commits key H m valid k free t',
              made_of,
              critical,
            )
            | inr stays ↦ rw (
              loc.run,
              locks key H m valid k free,
              ◌>>=◌,
              hash_u64,
              hit,
              stays,
              stores key H m valid k free changed,
              ◌>>=◌,
              commits key H m valid k free changed,
              made_of,
              critical,
            )
          ]
    ]

    pub alter_run :
        (f : K → V → V)
        → invoke key H (alter k f) m
          ≡ done (
            (made_of key H m valid (alter k f) loc.s.data_ptr).0,
            after key H m valid (alter k f),
          )
    unfolding invoke critical Access.alter Access.get_mut Access.set_value
    alter_run f = elim (Option-cases found) [
      | inl miss ↦ rw (
        loc.run,
        locks key H m valid k free,
        ◌>>=◌,
        hash_u64,
        miss,
        unlocks key H m valid k free,
        made_of,
        critical,
      )
      | inr ((i, (k', v)), hit) ↦
          let t' = H.write loc.s.data_ptr i (k', f k' v) in
          rw
            (
              loc.run,
              locks key H m valid k free,
              ◌>>=◌,
              hash_u64,
              hit,
              shard_at-put_shard m idx loc.s loc.at (exclusive m idx loc.s loc.at),
              made_of,
              critical,
            )
            (stored m idx loc.s loc.at (λ m'. done (nothing, m')) loc.s.data_ptr t')
    ]

    on_entry_lem :
        (v : V) (t : T) (e : Entry.Entry K V)
        → on_entry key H v (rehash key H m) t e
          ≡ (value (old_value e), new_table key H e v (rehash key H m) t)
    unfolding on_entry
    on_entry_lem v t (Entry.occupied o) = refl
    on_entry_lem v t (Entry.vacant e) = refl

    pub insert_run :
        (v : V)
        → invoke key H (insert k v) m
          ≡ done (
            (made_of key H m valid (insert k v) loc.s.data_ptr).0,
            after key H m valid (insert k v),
          )
    unfolding invoke critical
    insert_run v =
        let t = loc.s.data_ptr in
        let hash = key.hash m.hasher k in
        let held = put_shard m idx (record { raw = one_writer; data_ptr = t }) in
        let e = entry_of key H idx hash k found in
        let own = shard_of-entry_of key H idx hash k found in
        let there =
          subst
            (λ (i : ℕ). get_elem? held.shards i ≡ some (record { raw = one_writer; data_ptr = t }))
            (sym own)
            (get_elem?-set_self m.shards idx (record { raw = one_writer; data_ptr = t })
              (lt_of_get_elem? m.shards idx loc.at)) in
        let made : made_of key H m valid (insert k v) t
            ≡ (value (old_value e), new_table key H e v (rehash key H m) t) =
          ap (on_entry key H v (rehash key H m) t) (table_entry_lem key H t idx hash k)
          ∙ on_entry_lem v t e in
        let body = complete_lem key H e v held t there in
        let freed : RwLock T = record {
          raw = 0;
          data_ptr = new_table key H e v (rehash key H m) t;
        } in
        rw (insert_parts key H m k v, entry_run key H m k valid free, ◌>>=◌, body, made)
          (ap (λ (i : ℕ). done (value (old_value e), put_shard held i freed)) own
            ∙ ap (λ x. done (value (old_value e), x))
                (put_shard-put_shard m idx loc.s loc.at (record { raw = one_writer; data_ptr = t })
                  freed))
