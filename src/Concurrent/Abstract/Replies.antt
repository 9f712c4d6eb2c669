-- ===== src/Concurrent/Abstract/Replies.antt =====
-- A whole call does what is specified.
use dashmap.Base.{◌≡◌, refl, ◌∙◌, fun_ext, subst, Option, none, some, arith}
use dashmap.Base.Outcome.{done, ◌>>=◌}
use dashmap.Key.{Key}
use dashmap.Table.{HashTable}
use dashmap.Map.{DashMap, Ref}
use dashmap.Map.State.{IsValid, contents, word}
use dashmap.Map.Updates.{Updated}
use dashmap.Map.Inserting.{insert_lem, key_under}
use dashmap.Map.Access
use dashmap.Map.Access.Reading.{get_lem, Gets, contains_key_lem}
use dashmap.Map.Access.Removing.{remove_lem, remove_if_lem, remove_if_mut_lem}
use dashmap.Map.Access.Writing.{alter_lem}
use dashmap.Concurrent.{
  Call, get, contains_key, insert, remove, remove_if, remove_if_mut, alter, Reply, pair, invoke,
}
use dashmap.Concurrent.Abstract.{Holdings, with_under, stored_key, specified}

module _ {ℓ} {K V S : Type ℓ} (key : Key K S) (H : HashTable (K × V)) (m : DashMap H.T S)
    (valid : IsValid key H m) (free : (q : K) → word key H m q ≡ 0) where
  open H use {T, slots}

  -- A call that replies `r` and leaves what `g` holds, in a valid map that nobody holds a lock of.
  pub record Replies (c : Call K V) (r : Reply K V) (g : Holdings K V) : Type ℓ where
    pub m' : DashMap T S
    pub runs : invoke key H c m ≡ done (r, m')
    pub valid' : IsValid key H m'
    pub free' : (q : K) → word key H m' q ≡ 0
    pub holds : contents key H m' ≡ g

  updates :
      (c : Call K V) (k : K) (x : Option (K × V)) (r : Reply K V) (m' : DashMap T S)
      → invoke key H c m ≡ done (r, m')
      → Updated key H m k x m'
      → Replies c r (with_under key k x (contents key H m))
  updates c k x r m' run u = record {
    m' = m';
    runs = run;
    valid' = u.valid;
    free' = λ q. u.words q ∙ free q;
    holds = fun_ext (λ q. u.reads q);
  }

  stays :
      (c : Call K V) (r : Reply K V)
      → invoke key H c m ≡ done (r, m)
      → Replies c r (contents key H m)
  stays c r run = record { m' = m; runs = run; valid' = valid; free' = free; holds = refl }

  get-Replies : (k : K) → Replies (get k) (pair (contents key H m k)) (contents key H m)
  unfolding invoke
  get-Replies k = from (get_lem key H m k valid (omega (arith, free k)))
    where
      from :
          (r : Option (Ref K V)) × (m' : DashMap T S) × (Access.get key H m k ≡ done (r, m'))
            × Gets key H m k r m'
          → Replies (get k) (pair (contents key H m k)) (contents key H m)
      from (none, m', run, (missing, same)) = stays (get k) _ (rw (run, ◌>>=◌, missing, same))
      from (some r, m', run, (there, dropped)) =
          stays (get k) _ (rw (run, ◌>>=◌, dropped, ◌>>=◌, there))

  stored-under : (k : K) (x : Option (K × V)) → key_under key H m k valid x ≡ stored_key k x
  stored-under k none = refl
  stored-under k (some e) = refl

  -- Each operation on a valid map that nobody holds a lock of replies what the specification replies,
  -- and leaves a valid map that nobody holds a lock of and that holds what the specification leaves.
  pub invoke-Replies :
      (c : Call K V) → let (r, g) = specified key c (contents key H m) in Replies c r g
  unfolding invoke specified
  invoke-Replies (get k) = get-Replies k
  invoke-Replies (contains_key k) =
      stays (contains_key k) _
        (rw (contains_key_lem key H m k valid (omega (arith, free k)), ◌>>=◌))
  invoke-Replies (insert k v) =
      let (m', run, u) = insert_lem key H m k valid v (free k) in
      let same = stored-under k (contents key H m k) in
      updates (insert k v) k _ _ m' (rw (run, ◌>>=◌))
        (subst (λ (j : K). Updated key H m k (some (j, v)) m') same u)
  invoke-Replies (remove k) =
      let (m', run, u) = remove_lem key H m k valid (free k) in
      updates (remove k) k _ _ m' (rw (run, ◌>>=◌)) u
  invoke-Replies (remove_if k f) =
      let (m', run, u) = remove_if_lem key H m k valid f (free k) in
      updates (remove_if k f) k _ _ m' (rw (run, ◌>>=◌)) u
  invoke-Replies (remove_if_mut k f) =
      let (m', run, u) = remove_if_mut_lem key H m k valid f (free k) in
      updates (remove_if_mut k f) k _ _ m' (rw (run, ◌>>=◌)) u
  invoke-Replies (alter k f) =
      let (m', run, u) = alter_lem key H m k valid f (free k) in
      updates (alter k f) k _ _ m' (rw (run, ◌>>=◌)) u
