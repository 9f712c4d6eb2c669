-- ===== src/Map/Altering.antt =====
-- `alter_all`: the turns of its loop, and what they come to.
use dashmap.Base.{
  ℕ, zero, suc, ◌+◌, ◌<◌, ◌≡◌, ◌≢◌, refl, sym, ◌∙◌, ap, ◌⊎◌, inl, inr, Option, none, some, List, [],
  ◌∷◌, length, total, get_elem?, set, set_same, set_comm, drop, drop-get_elem?, map_from,
  map_from_end, map_from_step, get_elem?_within, get_elem?-set_ne, Option-cases, arith,
}
use dashmap.Base.Outcome.{Outcome, done, ◌>>=◌}
use dashmap.Lock.Quiet.{IsQuiet}
use dashmap.Lock.Word.{one_writer}
use dashmap.Table.{HashTable}
use dashmap.Map.{RwLock, DashMap, put_shard, write, drop_write}
use dashmap.Map.Guards.{write_free, drop_write_same}
use dashmap.Map.Loops.{changed}
use dashmap.Map.IterMut.{IterMut, RefMutMulti, next_mut_shard, drop_iter_mut}
use dashmap.Map.Altered.{altered_from, altered}

no_flag : IsQuiet 0
no_flag = record { fits = omega arith; no_flags = refl }

-- a shard with its lock taken
abbrev pub taken {ℓ} : {T : Type ℓ} → RwLock T → RwLock T
taken s = record { raw = one_writer; data_ptr = s.data_ptr }

-- the entries of the shards from number `i` on
module _ {ℓ} {K V : Type ℓ} (H : HashTable (K × V)) where
  abbrev pub work : ℕ → List (RwLock H.T) → ℕ
  work i ss = total (λ s. length (H.slots s.data_ptr)) (drop i ss)

no_entry {ℓ} : {A : Type ℓ} (xs : List A) → get_elem? xs 0 ≡ none → length xs ≡ 0
no_entry [] h = refl
no_entry (x ∷ xs) h = cc

module _ {ℓ} {K V S : Type ℓ} (H : HashTable (K × V)) (f : K → V → V) where
  open H use {T, slots}

  -- Nobody holds a lock of `m`.
  abbrev pub IsFree : DashMap T S → Type ℓ
  IsFree m = (i : ℕ) (s : RwLock T) → get_elem? m.shards i ≡ some s → s.raw ≡ 0

  -- The map while the iterator, before shard `i`, holds what it holds.
  abbrev pub Holds : DashMap T S → ℕ → Option (ℕ × ℕ) → DashMap T S → Type ℓ
  Holds m i none m' = m' ≡ m
  Holds m i (some (j, p)) m' =
      (s : RwLock T) × (get_elem? m.shards j ≡ some s) × (j < i) × (m' ≡ put_shard m j (taken s))

  pub drop_lem :
      (m : DashMap T S) (i : ℕ) (current : Option (ℕ × ℕ)) (m' : DashMap T S)
      → IsFree m
      → Holds m i current m'
      → drop_iter_mut H (record { shards = i; current = current }) m' ≡ done m
  unfolding drop_iter_mut
  drop_lem m i none m' free e = ap done e
  drop_lem m i (some (j, p)) m' free (s, at, _, e) = rw e (drop_write_same m j s at (free j s at))

  -- The lock of the next shard is taken, and then the guard of the last one goes.
  enter :
      (m : DashMap T S) (i : ℕ) (current : Option (ℕ × ℕ)) (m' : DashMap T S) (s : RwLock T)
      → IsFree m
      → Holds m i current m'
      → get_elem? m.shards i ≡ some s
      → (m'' : DashMap T S) × (write m' i ≡ done (s.data_ptr, m''))
        × (drop_iter_mut H (record { shards = i; current = current }) m''
            ≡ done (put_shard m i (taken s)))
  unfolding drop_iter_mut
  enter m i none m' s free e there =
      let q : IsQuiet s.raw = rw (free i s there) no_flag in
      (put_shard m i (taken s), rw e (write_free m i s there q (free i s there)), refl)
  enter m i (some (j, p)) m' s free (r, at_j, below, e) there =
      let q : IsQuiet s.raw = rw (free i s there) no_flag in
      let held = put_shard m j (taken r) in
      let ne : j ≢ i = λ (e' : j ≡ i). omega arith in
      let back : i ≢ j = λ (e' : i ≡ j). ne (sym e') in
      let still = get_elem?-set_ne m.shards j i (taken r) ne ∙ there in
      let at_j' = get_elem?-set_ne m.shards i j (taken s) back ∙ at_j in
      (
        put_shard held i (taken s),
        rw e (write_free held i s still q (free i s there)),
        ap (λ l. drop_write j (record { shift = m.shift; shards = l; hasher = m.hasher }))
              (set_comm m.shards j i (taken r) (taken s) ne)
            ∙ drop_write_same (put_shard m i (taken s)) j r at_j' (free j r at_j),
      )

  -- the shards from number `i` on altered
  abbrev pub finished : ℕ → DashMap T S → DashMap T S
  finished i m = record m { shards = map_from i (changed (altered H f)) m.shards }

  -- `next` found no further entry.
  pub record Over (m : DashMap T S) (i : ℕ)
      (run : Outcome (Option (RefMutMulti K V) × IterMut × DashMap T S)) : Type ℓ where
    pub it' : IterMut
    pub m'' : DashMap T S
    pub runs : run ≡ done (none, it', m'')
    pub holds : Holds m it'.shards it'.current m''
    pub same : finished i m ≡ m

  -- `next` found the first entry of shard `i'`.
  pub record Entered (m : DashMap T S) (i : ℕ)
      (run : Outcome (Option (RefMutMulti K V) × IterMut × DashMap T S)) : Type ℓ where
    pub i' : ℕ
    pub s : RwLock T
    pub e : ℕ × (K × V)
    pub there : get_elem? m.shards i' ≡ some s
    pub first : get_elem? (slots s.data_ptr) 0 ≡ some e
    pub runs :
        run
        ≡ done (
          some (record { guard = i'; pos = 0; k = e.1.0; v = e.1.1 }),
          record { shards = suc i'; current = some (i', 1) },
          put_shard m i' (taken s),
        )
    pub same : finished i m ≡ finished i' m
    pub less : work H i m.shards ≡ length (slots s.data_ptr) + work H (suc i') m.shards

  -- A shard without entries changes neither.
  skip :
      (m : DashMap T S) (i : ℕ) (s : RwLock T)
      (run : Outcome (Option (RefMutMulti K V) × IterMut × DashMap T S))
      → get_elem? m.shards i ≡ some s
      → s.raw ≡ 0
      → length (slots s.data_ptr) ≡ 0
      → Over m (suc i) run ⊎ Entered m (suc i) run
      → Over m i run ⊎ Entered m i run
  unfolding total altered_from
  skip m i s run there free nothing later =
      let unaltered : altered H f s.data_ptr ≡ s.data_ptr = rw nothing in
      let unchanged : changed (altered H f) s ≡ s =
        ap (λ t. record { raw = 0; data_ptr = t }) unaltered
        ∙ ap (λ (r : ℕ). record { raw = r; data_ptr = s.data_ptr }) (sym free) in
      let skipped : finished i m ≡ finished (suc i) m =
        ap (λ l. record { shift = m.shift; shards = l; hasher = m.hasher })
          (map_from_step i (changed (altered H f)) m.shards there
            ∙ ap (map_from (suc i) (changed (altered H f)))
                (ap (set m.shards i) unchanged ∙ set_same m.shards i s there)) in
      let light : work H i m.shards ≡ work H (suc i) m.shards =
        rw (drop-get_elem? m.shards i there, nothing) (omega arith) in
      elim later [
        | inl o ↦ inl (record {
          it' = o.it';
          m'' = o.m'';
          runs = o.runs;
          holds = o.holds;
          same = skipped ∙ o.same;
        })
        | inr x ↦ inr (record {
          i' = x.i';
          s = x.s;
          e = x.e;
          there = x.there;
          first = x.first;
          runs = x.runs;
          same = skipped ∙ x.same;
          less = light ∙ x.less;
        })
      ]

  pub next_mut_shard_lem :
      (k : ℕ) (m : DashMap T S) (i : ℕ) (current : Option (ℕ × ℕ)) (m' : DashMap T S)
      → IsFree m
      → Holds m i current m'
      → i + k ≡ length m.shards
      → Over m i (next_mut_shard H k (record { shards = i; current = current }) m')
        ⊎ Entered m i (next_mut_shard H k (record { shards = i; current = current }) m')
  unfolding next_mut_shard total
  next_mut_shard_lem zero m i current m' free holds count = inl (record {
    it' = record { shards = i; current = current };
    m'' = m';
    runs = refl;
    holds = holds;
    same =
        ap (λ l. record { shift = m.shift; shards = l; hasher = m.hasher })
          (map_from_end i (changed (altered H f)) m.shards (omega arith));
  })
  next_mut_shard_lem (suc k) m i current m' free holds count =
      let (s, there) = get_elem?_within m.shards i (omega arith) in
      let (m₁, locks, drops) = enter m i current m' s free holds there in
      elim (Option-cases (get_elem? (slots s.data_ptr) 0)) [
        | inr (e, first) ↦ inr (record {
          i' = i;
          s = s;
          e = e;
          there = there;
          first = first;
          runs = rw (next_mut_shard, locks, ◌>>=◌, drops, first);
          same = refl;
          less = rw (drop-get_elem? m.shards i there);
        })
        | inl nothing ↦
            rw (next_mut_shard, locks, ◌>>=◌, drops, nothing)
              (skip m i s _ there (free i s there) (no_entry (slots s.data_ptr) nothing) (
                next_mut_shard_lem k m (suc i) (some (i, 0)) (put_shard m i (taken s)) free
                  (s, there, omega arith, refl) (omega arith)))
      ]
