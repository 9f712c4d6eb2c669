-- ===== src/DashSet/Members.antt =====
-- What the operations of a set do to its members.
use dashmap.Base.{
  ◌≡◌, refl, ◌∙◌, ap, Bool, true, false, not, Option, none, some, is_some, All, if◌then◌else◌,
  arith, Bool-cases, inl, inr,
}
use mathlib.Core.Option
use dashmap.Base.Outcome.{done, ◌>>=◌}
use dashmap.Key.{Key}
use dashmap.Table.{HashTable}
use dashmap.Map.{DashMap}
use dashmap.Map.State.{IsValid, contents, word}
use dashmap.Map.Updates.{Updated}
use dashmap.Map.Inserting.{insert_lem}
use dashmap.Map.Access.Removing.{remove_lem}
use dashmap.Map.Retaining.{retain_lem, retained}
use dashmap.DashSet.{DashSet, insert, remove, retain}

module _ {ℓ} {K S : Type ℓ} (key : Key K S) (H : HashTable (K × Unit {ℓ})) (s : DashSet H.T S)
    (valid : IsValid key H s.inner) where
  open H use {T, slots}

  -- whether a key is in a set
  abbrev pub member : DashSet T S → K → Bool
  member s q = is_some (contents key H s.inner q)

  -- A valid set whose members are those of `s` but for the keys equal to `k`, which are members or
  -- not by `b`, with every lock as it was.
  pub record Changed (k : K) (b : Bool) (s' : DashSet T S) : Type ℓ where
    pub valid' : IsValid key H s'.inner
    pub members : (q : K) → member s' q ≡ (if key.equal q k then b else member s q)
    pub words : (q : K) → word key H s'.inner q ≡ word key H s.inner q

  changed :
      (k : K) (x : Option (K × Unit {ℓ})) (m' : DashMap T S)
      → Updated key H s.inner k x m'
      → Changed k (is_some x) (record { inner = m' })
  changed k x m' u = record {
    valid' = u.valid;
    members = λ q. elim (Bool-cases (key.equal q k)) [
      | inl same ↦ ap is_some (u.reads q) ∙ rw same
      | inr differ ↦ ap is_some (u.reads q) ∙ rw differ
    ];
    words = u.words;
  }

  -- `insert` into a valid set whose shard for the key is not locked says whether no member was
  -- equal to the key, makes it a member, and leaves the other members and the locks as they were.
  pub set_insert_lem :
      (k : K)
      → word key H s.inner k ≡ 0
      → (s' : DashSet T S) × (insert key H s k ≡ done (not (member s k), s')) × Changed k true s'
  unfolding insert
  set_insert_lem k free =
      let (m', run, u) = insert_lem key H s.inner k valid tt free in
      (
        record { inner = m' },
        rw (run, ◌>>=◌)
            (ap (λ b. done (not b, record { inner = m' })) (same (contents key H s.inner k))),
        changed k _ m' u,
      )
    where
      same :
          (x : Option (K × Unit {ℓ}))
          → is_some (Option.map (λ (e : K × Unit {ℓ}). e.1) x) ≡ is_some x
      same none = refl
      same (some e) = refl

  -- `remove` from a valid set whose shard for the key is not locked gives the member that was equal
  -- to the key, leaves none, and leaves the other members and the locks as they were.
  pub set_remove_lem :
      (k : K)
      → word key H s.inner k ≡ 0
      → (s' : DashSet T S) × (remove key H s k
          ≡ done (Option.map (λ e. e.0) (contents key H s.inner k), s'))
        × Changed k false s'
  unfolding remove
  set_remove_lem k free =
      let (m', run, u) = remove_lem key H s.inner k valid free in
      (record { inner = m' }, rw (run, ◌>>=◌), changed k none m' u)

  -- `retain` on a valid set that nobody holds a lock of leaves exactly the members for which the
  -- closure answers true.
  pub set_retain_lem :
      (f : K → Bool)
      → All (λ r. r.raw ≡ 0) s.inner.shards
      → (s' : DashSet T S) × (retain key H s f ≡ done s')
        × IsValid key H s'.inner
        × ((q : K)
            → member s' q ≡ (elim (contents key H s.inner q) [ none ↦ false | some e ↦ f e.0 ]))
  unfolding retain
  set_retain_lem f free =
      let (m', run, r) = retain_lem key H s.inner valid free (λ k v. (f k, v)) in
      (
        record { inner = m' },
        rw (run, ◌>>=◌),
        r.valid',
        λ q. ap is_some (r.reads q) ∙ stays (contents key H s.inner q),
      )
    where
      stays :
          (x : Option (K × Unit {ℓ}))
          → is_some (retained (λ k (v : Unit {ℓ}). (f k, v)) x)
            ≡ (elim x [ none ↦ false | some e ↦ f e.0 ])
      stays none = refl
      stays (some e) = ground arith
