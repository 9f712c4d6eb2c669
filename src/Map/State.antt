-- ===== src/Map/State.antt =====
-- What is true of a map between calls, what it holds, and how a write to one shard changes that.
use dashmap.Base.{
  ℕ, ◌-◌, ◌^◌, ◌≤◌, ◌≡◌, ◌∙◌, ◌≢◌, inl, inr, true, Option, none, some, All, length, get_elem?, ◌==◌,
  ==_iff, if◌then◌else◌, arith, get_elem?_within, get_elem?-set_cases, length-set, subst,
  get_elem?-set_self, get_elem?-set_ne, lt_of_get_elem?, total, Bool-cases,
}
use dashmap.Base.Outcome.{done}
use dashmap.Key.{Key}
use dashmap.Lock.Quiet.{IsQuiet}
use dashmap.Shards
use dashmap.Shards.Bounds.{determine_shard_lem}
use dashmap.Table.{HashTable}
use dashmap.Table.Entries.{lookup, count}
use dashmap.Map.{RwLock, DashMap, put_shard, determine_shard}

module _ {ℓ} {K V S : Type ℓ} (key : Key K S) (H : HashTable (K × V)) where
  open H use {T, slots}

  -- The entries of shard `i`: filed under their hashes, in their shard, no key twice.
  pub record IsShard (hasher : S) (shift i : ℕ) (t : T) : Type ℓ where
    pub filed : All (λ e. key.hash hasher e.1.0 ≡ e.0) (slots t)
    pub placed : All (λ e. Shards.shard_index shift e.0 ≡ i) (slots t)
    pub once : (q : K) → count key q (slots t) ≤ 1

  pub record IsValid (m : DashMap T S) : Type ℓ where
    pub bits : ℕ
    pub few : bits ≤ 63
    pub some_shards : 1 ≤ bits
    pub shifts : m.shift ≡ 64 - bits
    pub width : length m.shards ≡ 2 ^ bits
    pub quiet : (i : ℕ) (s : RwLock T) → get_elem? m.shards i ≡ some s → IsQuiet s.raw
    pub shard :
        (i : ℕ) (s : RwLock T)
        → get_elem? m.shards i ≡ some s
        → IsShard m.hasher m.shift i s.data_ptr

  -- The number of the shard of a key.
  abbrev pub home : DashMap T S → K → ℕ
  home m q = Shards.shard_index m.shift (key.hash m.hasher q)

  -- What the map holds under a key: the stored key and its value.
  unfoldable pub contents : DashMap T S → K → Option (K × V)
  contents m q = elim (get_elem? m.shards (home m q)) [
    | none ↦ none
    | some s ↦ lookup key q (slots s.data_ptr)
  ]

  -- The word of the lock of a key's shard.
  unfoldable pub word : DashMap T S → K → ℕ
  word m q = elim (get_elem? m.shards (home m q)) [ none ↦ 0 | some s ↦ s.raw ]

  -- How many entries the map holds.
  unfoldable pub entries : DashMap T S → ℕ
  entries m = total (λ s. length (slots s.data_ptr)) m.shards

  -- The shard of a key, and the run that finds it.
  pub record Located (m : DashMap T S) (k : K) : Type ℓ where
    pub s : RwLock T
    pub at : get_elem? m.shards (home m k) ≡ some s
    pub run : determine_shard key H m (key.hash m.hasher k) ≡ done (home m k)
    pub holds : contents m k ≡ lookup key k (slots s.data_ptr)
    pub locked : word m k ≡ s.raw
    pub ok : IsShard m.hasher m.shift (home m k) s.data_ptr
    pub quiet : IsQuiet s.raw

  pub located : (m : DashMap T S) (k : K) → IsValid m → Located m k
  unfolding contents word determine_shard
  located m k valid =
      let few : valid.bits ≤ 64 = omega (arith, valid.few) in
      let (run, below, _, _) =
        determine_shard_lem valid.bits (key.hash m.hasher k) valid.some_shards few in
      let (s, at) = get_elem?_within m.shards (home m k) (rw (valid.shifts, valid.width) below) in
      record {
        s = s;
        at = at;
        run = rw (valid.shifts, valid.width) run;
        holds = rw (at, contents);
        locked = rw (at, word);
        ok = valid.shard (home m k) s at;
        quiet = valid.quiet (home m k) s at;
      }

  -- Two equal keys have one home.
  pub home_congr : (m : DashMap T S) (a b : K) → key.equal a b ≡ true → home m a ≡ home m b
  home_congr m a b e = rw (key.hash-equal m.hasher a b e)

  module _ (m : DashMap T S) (valid : IsValid m) (i : ℕ) (s : RwLock T) (s' : RwLock T)
      (at : get_elem? m.shards i ≡ some s) where
    -- A shard may be replaced by any other that is in order.
    pub put_shard-IsValid :
        IsQuiet s'.raw → IsShard m.hasher m.shift i s'.data_ptr → IsValid (put_shard m i s')
    put_shard-IsValid quiet ok = record {
      bits = valid.bits;
      few = valid.few;
      some_shards = valid.some_shards;
      shifts = valid.shifts;
      width = length-set m.shards i s' ∙ valid.width;
      quiet = λ j r at_j. elim (get_elem?-set_cases m.shards i j s' at_j) [
        | inl (_, e) ↦ subst (λ x. IsQuiet x.raw) e quiet
        | inr (_, there) ↦ valid.quiet j r there
      ];
      shard = λ j r at_j. elim (get_elem?-set_cases m.shards i j s' at_j) [
        | inl (ij, e) ↦
            subst (λ x. IsShard m.hasher m.shift j x.data_ptr) e
              (subst (λ (x : ℕ). IsShard m.hasher m.shift x s'.data_ptr) ij ok)
        | inr (_, there) ↦ valid.shard j r there
      ];
    }

    -- It then holds what the new shard holds, for the keys of that shard.
    pub contents-put_shard :
        (q : K)
        → contents (put_shard m i s') q
          ≡ (if home m q == i then lookup key q (slots s'.data_ptr) else contents m q)
    unfolding contents
    contents-put_shard q = elim (Bool-cases (home m q == i)) [
      | inl here ↦
          let e : home m q ≡ i = (==_iff _ _).0 here in
          rw (here, e, get_elem?-set_self m.shards i s' (lt_of_get_elem? m.shards i at), contents)
      | inr away ↦
          let ne : i ≢ home m q = ground arith in
          rw (away, get_elem?-set_ne m.shards i (home m q) s' ne, contents)
    ]
