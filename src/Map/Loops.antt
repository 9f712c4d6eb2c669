-- ===== src/Map/Loops.antt =====
-- The loops over the shards of a map whose locks nobody holds.
use dashmap.Base.{
  ℕ, ◌+◌, ◌<◌, ◌^◌, ◌≡◌, refl, ◌∙◌, ap, subst, Option, List, [], ◌∷◌, map, All, total,
  get_elem?-map, get_elem?-map_inv, length-map, lt→ltb, arith,
}
use dashmap.Base.Outcome.{done, ◌>>=◌}
use dashmap.Key.{Key}
use dashmap.Lock.Quiet.{
  IsQuiet, lock_exclusive_lem, lock_shared_lem, unlock_exclusive_lem, unlock_shared_lem,
}
use dashmap.Table.{HashTable}
use dashmap.Table.Entries.{lookup}
use dashmap.Map.{RwLock, DashMap}
use dashmap.Map.State.{IsValid, IsShard, contents, word, home, located}
use dashmap.Map.Whole.{for_each, with_write, sum_read, for_each_write}

module _ {ℓ} {T : Type ℓ} where
  -- a shard whose lock is free, with its table changed
  abbrev pub changed : (T → T) → RwLock T → RwLock T
  changed f s = record { raw = 0; data_ptr = f s.data_ptr }

  -- a lock that a reader can take
  pub record IsReadable (s : RwLock T) : Type 0 where
    pub quiet : IsQuiet s.raw
    pub room : s.raw + 8 < 2 ^ 64

  with_write_free : (f : T → T) (s : RwLock T) → s.raw ≡ 0 → with_write f s ≡ done (changed f s)
  unfolding with_write
  with_write_free f s free = rw (
    free,
    lock_exclusive_lem 0 (record { fits = omega arith; no_flags = refl }),
    ◌>>=◌,
    unlock_exclusive_lem,
  )

  pub for_each_free :
      (f : T → T) (ss : List (RwLock T))
      → All (λ s. s.raw ≡ 0) ss
      → for_each (with_write f) ss ≡ done (map (changed f) ss)
  unfolding for_each
  for_each_free f [] free = refl
  for_each_free f (s ∷ ss) free = rw (with_write_free f s free.0, ◌>>=◌, for_each_free f ss free.1)

  pub sum_read_lem :
      (f : T → ℕ) (acc : ℕ) (ss : List (RwLock T))
      → All IsReadable ss
      → acc + total (λ s. f s.data_ptr) ss < 2 ^ 64
      → sum_read f acc ss ≡ done (acc + total (λ s. f s.data_ptr) ss, ss)
  unfolding sum_read total
  sum_read_lem f acc [] ok small = ap (λ (n : ℕ). done (n, [])) (omega arith)
  sum_read_lem f acc (s ∷ ss) ok small =
      let room = ok.0.room in
      rw
        (
          lock_shared_lem s.raw ok.0.quiet,
          lt→ltb (s.raw + 8) (2 ^ 64) room,
          ◌>>=◌,
          lt→ltb (acc + f s.data_ptr) (2 ^ 64) (omega arith),
          sum_read_lem f (acc + f s.data_ptr) ss ok.1 (omega arith),
          unlock_shared_lem s.raw ok.0.quiet (omega arith),
        )
        (ap (λ (n : ℕ). done (n, s ∷ ss)) (omega arith))

module _ {ℓ} {K V S : Type ℓ} (key : Key K S) (H : HashTable (K × V)) (m : DashMap H.T S)
    (valid : IsValid key H m) where
  open H use {T, slots}

  -- the map with each table changed
  abbrev pub everywhere : (T → T) → DashMap T S
  everywhere f = record m { shards = map (changed f) m.shards }

  pub for_each_write_run :
      (f : T → T) → All (λ s. s.raw ≡ 0) m.shards → for_each_write key H f m ≡ done (everywhere f)
  unfolding for_each_write
  for_each_write_run f free = rw (for_each_free f m.shards free, ◌>>=◌)

  -- A change of each table that keeps it in order, and does `g` to what is under a key.
  module _ (f : T → T) (g : Option (K × V) → Option (K × V))
      (ok : (i : ℕ) (t : T)
        → IsShard key H m.hasher m.shift i t
        → IsShard key H m.hasher m.shift i (f t))
      (reads : (i : ℕ) (t : T) (q : K)
        → IsShard key H m.hasher m.shift i t
        → lookup key q (slots (f t)) ≡ g (lookup key q (slots t))) where
    pub everywhere-IsValid : IsValid key H (everywhere f)
    everywhere-IsValid = record {
      bits = valid.bits;
      few = valid.few;
      some_shards = valid.some_shards;
      shifts = valid.shifts;
      width = length-map (changed f) m.shards ∙ valid.width;
      quiet = λ i s at.
          let (r, _, e) = get_elem?-map_inv (changed f) m.shards i at in
          subst (λ (x : RwLock T). IsQuiet x.raw) e
            (record { fits = omega arith; no_flags = refl });
      shard = λ i s at.
          let (r, there, e) = get_elem?-map_inv (changed f) m.shards i at in
          subst (λ (x : RwLock T). IsShard key H m.hasher m.shift i x.data_ptr) e
            (ok i r.data_ptr (valid.shard i r there));
    }

    pub contents-everywhere : (q : K) → contents key H (everywhere f) q ≡ g (contents key H m q)
    unfolding contents
    contents-everywhere q =
        let l = located key H m q valid in
        rw (get_elem?-map (changed f) m.shards (home key H m q) l.at, contents, l.at)
          (reads (home key H m q) l.s.data_ptr q l.ok)

    pub word-everywhere : (q : K) → word key H (everywhere f) q ≡ 0
    unfolding word
    word-everywhere q =
        let l = located key H m q valid in
        rw (get_elem?-map (changed f) m.shards (home key H m q) l.at, word)
