-- ===== src/Concurrent/Sections/Whole.antt =====
-- What a whole call makes of a map that nobody holds the lock of the shard of, and that it keeps the
-- map valid.
use dashmap.Base.{ℕ, ◌≡◌, refl, sym, ◌∙◌, ap, Option-cases, inl, inr, false, subst}
use dashmap.Base.Outcome.{Outcome, done, ◌>>=◌}
use dashmap.Key.{Key}
use dashmap.Table.{HashTable}
use dashmap.Map.{DashMap, put_shard, search_shard}
use dashmap.Map.State.{IsValid, home, word}
use dashmap.Map.Inserting.{insert_lem}
use dashmap.Map.Access.Removing.{remove_lem, remove_if_lem, remove_if_mut_lem}
use dashmap.Map.Access.Writing.{alter_lem}
use dashmap.Concurrent.{
  Call, get, contains_key, insert, remove, remove_if, remove_if_mut, alter, Reply, pair, value,
  nothing, key_of, is_exclusive, invoke, critical,
}
use dashmap.Concurrent.Sections.{made_of, at_home, after, put_same, get_run, contains_key_run}
use dashmap.Concurrent.Sections.Writing.{
  remove_run, remove_if_run, remove_if_mut_run, alter_run, insert_run,
}

module _ {ℓ} {K V S : Type ℓ} (key : Key K S) (H : HashTable (K × V)) (m : DashMap H.T S)
    (valid : IsValid key H m) where
  open H use {T, slots}

  -- A call on a map that nobody holds the lock of the shard of makes of that shard what it makes of
  -- its table, and changes no other.
  pub invoke_lem :
      (c : Call K V)
      → word key H m (key_of c) ≡ 0
      → invoke key H c m
        ≡ done
            ((made_of key H m valid c (at_home key H m valid c).data_ptr).0, after key H m valid c)
  invoke_lem (get k) free = get_run key H m valid k free
  invoke_lem (contains_key k) free = contains_key_run key H m valid k free
  invoke_lem (insert k v) free = insert_run key H m valid k free v
  invoke_lem (remove k) free = remove_run key H m valid k free
  invoke_lem (remove_if k f) free = remove_if_run key H m valid k free f
  invoke_lem (remove_if_mut k f) free = remove_if_mut_run key H m valid k free f
  invoke_lem (alter k f) free = alter_run key H m valid k free f

  -- the map that a call leaves, by two ways
  same_reply :
      {A : Type ℓ} {a : A} {m' m'' : DashMap T S} (f : A → Reply K V)
      {r : Outcome (A × DashMap T S)} {x : Reply K V}
      → r ≡ done (a, m')
      → ◌>>=◌ {B = Reply K V × DashMap T S} r (λ y. done (f y.0, y.1)) ≡ done (x, m'')
      → m' ≡ m''
  same_reply f h h' =
      let both =
        sym (ap (λ r. ◌>>=◌ {B = Reply K V × DashMap T S} r (λ y. done (f y.0, y.1))) h) ∙ h' in
      cc

  -- A call with a guard for reads leaves the table as it is.
  pub reads_only :
      (c : Call K V) (idx hash : ℕ) (hasher : K × V → ℕ) (t : T)
      → is_exclusive c ≡ false
      → (critical key H c idx hash hasher t).1 ≡ t
  unfolding critical
  reads_only (get k) idx hash hasher t shares = elim (Option-cases (search_shard key H t hash k)) [
    | inl miss ↦ rw (critical, miss)
    | inr ((i, e), hit) ↦ rw (critical, hit)
  ]
  reads_only (contains_key k) idx hash hasher t shares =
      elim (Option-cases (search_shard key H t hash k)) [
        | inl miss ↦ rw (critical, miss)
        | inr ((i, e), hit) ↦ rw (critical, hit)
      ]
  reads_only (insert k v) idx hash hasher t shares = cc
  reads_only (remove k) idx hash hasher t shares = cc
  reads_only (remove_if k f) idx hash hasher t shares = cc
  reads_only (remove_if_mut k f) idx hash hasher t shares = cc
  reads_only (alter k f) idx hash hasher t shares = cc

  read-IsValid :
      (c : Call K V)
      → word key H m (key_of c) ≡ 0
      → is_exclusive c ≡ false
      → IsValid key H (after key H m valid c)
  read-IsValid c free shares =
      subst (IsValid key H)
        (sym (
          ap (λ t. put_shard m (home key H m (key_of c)) (record { raw = 0; data_ptr = t }))
            (reads_only c _ _ _ (at_home key H m valid c).data_ptr shares)
          ∙ put_same key H m valid (key_of c) free))
        valid

  pub after-IsValid :
      (c : Call K V) → word key H m (key_of c) ≡ 0 → IsValid key H (after key H m valid c)
  unfolding invoke
  after-IsValid (get k) free = read-IsValid (get k) free refl
  after-IsValid (contains_key k) free = read-IsValid (contains_key k) free refl
  after-IsValid (insert k v) free =
      let (m', run, u) = insert_lem key H m k valid v free in
      subst (IsValid key H) (same_reply value run (insert_run key H m valid k free v)) u.valid
  after-IsValid (remove k) free =
      let (m', run, u) = remove_lem key H m k valid free in
      subst (IsValid key H) (same_reply pair run (remove_run key H m valid k free)) u.valid
  after-IsValid (remove_if k f) free =
      let (m', run, u) = remove_if_lem key H m k valid f free in
      subst (IsValid key H) (same_reply pair run (remove_if_run key H m valid k free f)) u.valid
  after-IsValid (remove_if_mut k f) free =
      let (m', run, u) = remove_if_mut_lem key H m k valid f free in
      subst (IsValid key H) (same_reply pair run (remove_if_mut_run key H m valid k free f)) u.valid
  after-IsValid (alter k f) free =
      let (m', run, u) = alter_lem key H m k valid f free in
      let both =
        sym (ap (λ r. r >>= (λ y. done (nothing, y))) run) ∙ alter_run key H m valid k free f in
      let same : m' ≡ after key H m valid (alter k f) = cc in subst (IsValid key H) same u.valid
