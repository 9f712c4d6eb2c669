-- ===== src/Map/Leaving.antt =====
-- What an occupied entry is removed or replaced by, and `try_entry`.
use dashmap.Base.{◌≡◌, sym, ◌∙◌, inl, inr, Option, none, some, if◌then◌else◌, ◌==◌, Bool-cases}
use dashmap.Base.Outcome.{Outcome, done, ◌>>=◌}
use dashmap.Key.{Key}
use dashmap.Table.{HashTable}
use dashmap.Map.{DashMap}
use dashmap.Map.State.{IsValid, contents, word}
use dashmap.Map.Guards.{drop_write_same, try_write_lem, write_lem}
use dashmap.Map.Updates.{Updated, unchanged-Updated}
use dashmap.Map.Occupied
use dashmap.Map.Entry.{Entry, occupied, vacant, entry, try_entry, drop_entry}
use dashmap.Map.Inserting.{entering, loc, idx, t, let_go}
use dashmap.Map.Held.{shard_at-held, stored_last}

module _ {ℓ} {K V S : Type ℓ} (key : Key K S) (H : HashTable (K × V)) (m : DashMap H.T S) (k : K)
    (valid : IsValid key H m) where
  open H use {T, slots}

  -- A matched `Occupied` entry handed to a method of `OccupiedEntry`, and a vacant one dropped.
  abbrev pub when_occupied {κ} :
      {R : Type κ}
      → (Occupied.OccupiedEntry K V → DashMap T S → Outcome (R × DashMap T S))
      → Entry K V × DashMap T S
      → Outcome (Option R × DashMap T S)
  when_occupied f (occupied o, m') = do (r, m'') ← f o m'; done (some r, m'')
  when_occupied f (vacant e, m') = do m'' ← drop_entry key H (vacant e) m'; done (none, m'')

  -- An entry dropped at once leaves the map as it was.
  pub entry-drop :
      word key H m k ≡ 0
      → (e : Entry K V) × (m' : DashMap T S) × (entry key H m k ≡ done (e, m'))
        × (drop_entry key H e m' ≡ done m)
  entry-drop free =
      let back =
        drop_write_same m (idx key H m k valid) (loc key H m k valid).s (loc key H m k valid).at
          (sym (loc key H m k valid).locked ∙ free) in
      elim (entering key H m k valid free) [
        | inl e ↦ (_, _, e.run, back)
        | inr (i, k', u, o) ↦ (_, _, o.run, back)
      ]

  -- On a valid map whose shard for the key is not locked, an occupied entry whose `remove_entry` is
  -- called gives the pair that was under the key and leaves none there; where the entry is vacant
  -- and is dropped, the map is as it was.
  pub entry-remove_entry :
      word key H m k ≡ 0
      → (m' : DashMap T S) × ((entry key H m k >>= when_occupied (Occupied.remove_entry H))
          ≡ done (contents key H m k, m'))
        × Updated key H m k none m'
  unfolding Occupied.remove_entry
  entry-remove_entry free =
      let l = loc key H m k valid in
      let i₀ = idx key H m k valid in
      let t₀ = t key H m k valid in
      elim (entering key H m k valid free) [
        | inl e ↦ (
          m,
          rw (e.run, ◌>>=◌, drop_write_same m i₀ l.s l.at (sym l.locked ∙ free), e.missing),
          unchanged-Updated key H m k none valid e.missing,
        )
        | inr (i, k', u, o) ↦ (
          let_go key H m k valid (H.remove t₀ i),
          rw (o.run, ◌>>=◌, shard_at-held m i₀ l.s l.at t₀, o.there)
              (rw (stored_last m i₀ l.s l.at t₀ (H.remove t₀ i))),
          o.removed,
        )
      ]

  -- the pair that `replace_entry` leaves: with the key of the call
  abbrev pub renewed : V → Option (K × V) → Option (K × V)
  renewed v none = none
  renewed v (some _) = some (k, v)

  -- On a valid map whose shard for the key is not locked, an occupied entry whose `replace_entry`
  -- is called gives the pair that was under the key, and leaves the key of the call there with the
  -- new value; where the entry is vacant and is dropped, the map is as it was.
  pub entry-replace_entry :
      (v : V)
      → word key H m k ≡ 0
      → (m' : DashMap T S) × ((entry key H m k
            >>= when_occupied (λ o. Occupied.replace_entry H o v))
          ≡ done (contents key H m k, m'))
        × Updated key H m k (renewed v (contents key H m k)) m'
  unfolding Occupied.replace_entry Occupied.replace
  entry-replace_entry v free =
      let l = loc key H m k valid in
      let i₀ = idx key H m k valid in
      let t₀ = t key H m k valid in
      elim (entering key H m k valid free) [
        | inl e ↦ (
          m,
          rw (e.run, ◌>>=◌, drop_write_same m i₀ l.s l.at (sym l.locked ∙ free), e.missing),
          rw e.missing (unchanged-Updated key H m k none valid e.missing),
        )
        | inr (i, k', u, o) ↦ (
          let_go key H m k valid (H.write t₀ i (k, v)),
          rw (o.run, ◌>>=◌, shard_at-held m i₀ l.s l.at t₀, o.there)
              (rw (stored_last m i₀ l.s l.at t₀ (H.write t₀ i (k, v)))),
          rw o.there (o.wrote k v o.same),
        )
      ]

  -- `try_entry` on a valid map is `entry` where no lock of the shard of the key is held, and
  -- returns `None` where one is.
  pub try_entry_lem :
      try_entry key H m k
      ≡ (if word key H m k == 0 then entry key H m k >>= (λ r. done (some r)) else done none)
  unfolding entry try_entry
  try_entry_lem =
      let l = loc key H m k valid in
      let i₀ = idx key H m k valid in
      elim (Bool-cases (l.s.raw == 0)) [
        | inr full ↦ rw (l.locked, full, l.run, try_write_lem m i₀ l.s l.at l.quiet, full)
        | inl room ↦ rw (
          l.locked,
          room,
          l.run,
          try_write_lem m i₀ l.s l.at l.quiet,
          room,
          write_lem m i₀ l.s l.at l.quiet,
          room,
          ◌>>=◌,
        )
      ]
