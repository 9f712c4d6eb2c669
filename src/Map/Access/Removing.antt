-- ===== src/Map/Access/Removing.antt =====
-- `remove`, `remove_if` and `remove_if_mut`.
use dashmap.Base.{
  ℕ, ◌≡◌, sym, ◌∙◌, ◌≢◌, inl, inr, Bool, true, false, Option, none, some, if◌then◌else◌, Bool-cases,
}
use dashmap.Base.Outcome.{done, blocked, ◌>>=◌}
use dashmap.Key.{Key}
use dashmap.Table.{HashTable}
use dashmap.Map.{RwLock, DashMap, put_shard, hash_u64, write}
use dashmap.Map.State.{IsValid, home, contents, word, Located, located}
use dashmap.Map.Guards.{
  write_free, write_taken, drop_write_lem, drop_write_same, store_lem, exclusive,
}
use dashmap.Map.Search.{IsAt, search_shard_lem}
use dashmap.Map.Tables.{write-Rewrites, remove-Rewrites, write-remove-Rewrites}
use dashmap.Map.Updates.{Updated, released-Updated, unchanged-Updated}
use dashmap.Map.Access.{remove, remove_if, remove_if_mut}

-- What the closure of `remove_if_mut` lets go, and what it leaves.
module _ {ℓ} {K V : Type ℓ} (f : K → V → Bool × V) where
  abbrev pub taken_by : Option (K × V) → Option (K × V)
  taken_by none = none
  taken_by (some (k, v)) = if (f k v).0 then some (k, (f k v).1) else none

  abbrev pub left_by : Option (K × V) → Option (K × V)
  left_by none = none
  left_by (some (k, v)) = if (f k v).0 then none else some (k, (f k v).1)

module _ {ℓ} {K V S : Type ℓ} (key : Key K S) (H : HashTable (K × V)) (m : DashMap H.T S) (k : K)
    (valid : IsValid key H m) where
  open H use {T, slots}

  abbrev loc : Located key H m k
  loc = located key H m k valid

  abbrev idx : ℕ
  idx = home key H m k

  abbrev s : RwLock T
  s = loc.s

  -- `remove` on a valid map whose shard for the key is not locked returns the pair under the key,
  -- and leaves none there and the map valid and for the rest as it was.
  pub remove_lem :
      word key H m k ≡ 0
      → (m' : DashMap T S) × (remove key H m k ≡ done (contents key H m k, m'))
        × Updated key H m k none m'
  unfolding remove
  remove_lem free =
      let unlocked : s.raw ≡ 0 = sym loc.locked ∙ free in
      let locks = write_free m idx s loc.at loc.quiet unlocked in
      let taken = exclusive m idx s loc.at in
      elim (search_shard_lem key H m.hasher m.shift idx s.data_ptr k loc.ok) [
        | inl miss ↦
            let missing = loc.holds ∙ miss.absent in
            (
              m,
              rw (
                loc.run,
                locks,
                ◌>>=◌,
                hash_u64,
                miss.run,
                drop_write_same m idx s loc.at unlocked,
                missing,
              ),
              unchanged-Updated key H m k none valid missing,
            )
        | inr (i, k', v, hit) ↦
            let t' = H.remove s.data_ptr i in
            (
              put_shard m idx (record { raw = 0; data_ptr = t' }),
              rw (
                loc.run,
                locks,
                ◌>>=◌,
                hash_u64,
                hit.run,
                store_lem m idx s loc.at taken t',
                ◌>>=◌,
                drop_write_lem m idx s loc.at t',
                loc.holds ∙ hit.found,
              ),
              released-Updated key H m valid k loc none t' unlocked (
                  remove-Rewrites key H m.hasher m.shift idx s.data_ptr i _ k' k v loc.ok hit.at
                    hit.found hit.same),
            )
      ]

  module _ (unlocked : s.raw ≡ 0) where
    locks : write m idx ≡ done (s.data_ptr, put_shard m idx (exclusive m idx s loc.at))
    locks = write_free m idx s loc.at loc.quiet unlocked

    -- the table put back and the lock let go
    commit : T → DashMap T S
    commit t' = put_shard m idx (record { raw = 0; data_ptr = t' })

    module _ (i : ℕ) (k' : K) (v : V)
        (hit : IsAt key H (key.hash m.hasher k) k s.data_ptr i k' v) where
      there : contents key H m k ≡ some (k', v)
      there = loc.holds ∙ hit.found

      goes_by :
          (f : K → V → Bool × V)
          → (f k' v).0 ≡ true
          → let t' = H.remove (H.write s.data_ptr i (k', (f k' v).1)) i in
            (remove_if_mut key H m k f ≡ done (taken_by f (contents key H m k), commit t'))
            × Updated key H m k (left_by f (contents key H m k)) (commit t')
      unfolding remove_if_mut commit
      goes_by f goes =
          let t' = H.remove (H.write s.data_ptr i (k', (f k' v).1)) i in
          let stored = store_lem m idx s loc.at (exclusive m idx s loc.at) t' in
          let dropped = drop_write_lem m idx s loc.at t' in
          (
            rw (
              loc.run, locks, ◌>>=◌, hash_u64, hit.run, goes, stored, ◌>>=◌, dropped, there,
              taken_by, goes,
            ),
            rw (there, left_by, goes)
                (released-Updated key H m valid k loc none t' unlocked (
                  write-remove-Rewrites key H m.hasher m.shift idx s.data_ptr i _ k' k v (f k' v).1
                    loc.ok hit.at hit.found hit.same)),
          )

      stays_by :
          (f : K → V → Bool × V)
          → (f k' v).0 ≡ false
          → let t' = H.write s.data_ptr i (k', (f k' v).1) in
            (remove_if_mut key H m k f ≡ done (taken_by f (contents key H m k), commit t'))
            × Updated key H m k (left_by f (contents key H m k)) (commit t')
      unfolding remove_if_mut commit
      stays_by f stays =
          let t' = H.write s.data_ptr i (k', (f k' v).1) in
          let stored = store_lem m idx s loc.at (exclusive m idx s loc.at) t' in
          let dropped = drop_write_lem m idx s loc.at t' in
          (
            rw (
              loc.run, locks, ◌>>=◌, hash_u64, hit.run, stays, stored, ◌>>=◌, dropped, there,
              taken_by, stays,
            ),
            rw (there, left_by, stays)
                (released-Updated key H m valid k loc (some (k', (f k' v).1)) t' unlocked (
                  write-Rewrites key H m.hasher m.shift idx s.data_ptr i _ k' k' k v (f k' v).1
                    loc.ok hit.at hit.found hit.same (key.equal_refl k'))),
          )

  -- `remove_if_mut` on a valid map whose shard for the key is not locked: where the closure answers
  -- true, the pair is returned with the value that the closure left, and is gone from the map;
  -- where it answers false, nothing is returned and the map has the value that the closure left.
  pub remove_if_mut_lem :
      (f : K → V → Bool × V)
      → word key H m k ≡ 0
      → (m' : DashMap T S) × (remove_if_mut key H m k f
          ≡ done (taken_by f (contents key H m k), m'))
        × Updated key H m k (left_by f (contents key H m k)) m'
  unfolding remove_if_mut
  remove_if_mut_lem f free =
      let unlocked : s.raw ≡ 0 = sym loc.locked ∙ free in
      let dropped = drop_write_same m idx s loc.at unlocked in
      elim (search_shard_lem key H m.hasher m.shift idx s.data_ptr k loc.ok) [
        | inl miss ↦
            let missing = loc.holds ∙ miss.absent in
            (
              m,
              rw (loc.run, locks unlocked, ◌>>=◌, hash_u64, miss.run, dropped, missing),
              rw missing (unchanged-Updated key H m k none valid missing),
            )
        | inr (i, k', v, hit) ↦ elim (Bool-cases (f k' v).0) [
          | inl goes ↦ let by = goes_by unlocked i k' v hit f goes in (_, by.0, by.1)
          | inr stays ↦ let by = stays_by unlocked i k' v hit f stays in (_, by.0, by.1)
        ]
      ]

  -- `remove_if` on a valid map whose shard for the key is not locked: where the closure answers
  -- true, the pair is returned and is gone from the map; where it answers false, nothing is
  -- returned and the map holds what it held.
  pub remove_if_lem :
      (f : K → V → Bool)
      → word key H m k ≡ 0
      → (m' : DashMap T S) × (remove_if key H m k f
          ≡ done (taken_by (λ j v. (f j v, v)) (contents key H m k), m'))
        × Updated key H m k (left_by (λ j v. (f j v, v)) (contents key H m k)) m'
  unfolding remove_if
  remove_if_lem f free =
      let unlocked : s.raw ≡ 0 = sym loc.locked ∙ free in
      let dropped = drop_write_same m idx s loc.at unlocked in
      elim (search_shard_lem key H m.hasher m.shift idx s.data_ptr k loc.ok) [
        | inl miss ↦
            let missing = loc.holds ∙ miss.absent in
            (
              m,
              rw (loc.run, locks unlocked, ◌>>=◌, hash_u64, miss.run, dropped, missing),
              rw missing (unchanged-Updated key H m k none valid missing),
            )
        | inr (i, k', v, hit) ↦
            let here = there unlocked i k' v hit in
            let t' = H.remove s.data_ptr i in
            let stored = store_lem m idx s loc.at (exclusive m idx s loc.at) t' in
            let freed = drop_write_lem m idx s loc.at t' in
            elim (Bool-cases (f k' v)) [
              | inl goes ↦ (
                put_shard m idx (record { raw = 0; data_ptr = t' }),
                rw (
                  loc.run,
                  locks unlocked,
                  ◌>>=◌,
                  hash_u64,
                  hit.run,
                  goes,
                  stored,
                  ◌>>=◌,
                  freed,
                  here,
                  taken_by,
                  goes,
                ),
                rw (here, left_by, goes)
                    (released-Updated key H m valid k loc none t' unlocked (
                      remove-Rewrites key H m.hasher m.shift idx s.data_ptr i _ k' k v loc.ok hit.at
                        hit.found hit.same)),
              )
              | inr stays ↦ (
                m,
                rw (
                  loc.run,
                  locks unlocked,
                  ◌>>=◌,
                  hash_u64,
                  hit.run,
                  stays,
                  dropped,
                  here,
                  taken_by,
                  stays,
                ),
                rw (here, left_by, stays) (unchanged-Updated key H m k (some (k', v)) valid here),
              )
            ]
      ]

  pub remove_blocked : word key H m k ≢ 0 → remove key H m k ≡ blocked
  unfolding remove
  remove_blocked taken =
      rw (loc.run, write_taken m idx s loc.at loc.quiet (λ e. taken (loc.locked ∙ e)))
