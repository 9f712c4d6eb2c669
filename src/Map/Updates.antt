-- ===== src/Map/Updates.antt =====
-- A write behind the lock of a shard, seen as a change of what the map holds under one key.
use dashmap.Base.{
  ℕ, ◌+◌, ◌≡◌, refl, sym, ◌∙◌, ap, subst, ◌≢◌, inl, inr, true, Option, some, length, get_elem?,
  if◌then◌else◌, ◌==◌, ==_iff, arith, Bool-cases, total-set, get_elem?-set_self, get_elem?-set_ne,
  lt_of_get_elem?,
}
use dashmap.Key.{Key}
use dashmap.Table.{HashTable}
use dashmap.Table.Entries.{lookup}
use dashmap.Map.{RwLock, DashMap, put_shard}
use dashmap.Map.State.{
  IsValid, home, contents, word, entries, Located, put_shard-IsValid, contents-put_shard,
  home_congr, located,
}
use dashmap.Map.Tables.{Rewrites, found, lookup_congr}

module _ {ℓ} {K V S : Type ℓ} (key : Key K S) (H : HashTable (K × V)) where
  open H use {T, slots}

  -- `m'` holds `x` under `k` and for the rest what `m` holds, with every lock as it was.
  pub record Updated (m : DashMap T S) (k : K) (x : Option (K × V)) (m' : DashMap T S)
      : Type ℓ where
    pub valid : IsValid key H m'
    pub reads : (q : K) → contents key H m' q ≡ (if key.equal q k then x else contents key H m q)
    pub words : (q : K) → word key H m' q ≡ word key H m q
    pub size : entries key H m' + found (contents key H m k) ≡ entries key H m + found x

  -- Equal keys find the same.
  pub contents_congr :
      (m : DashMap T S) (q k : K)
      → IsValid key H m
      → key.equal q k ≡ true
      → contents key H m q ≡ contents key H m k
  contents_congr m q k valid e =
      let at_q = located key H m q valid in
      let at_k = located key H m k valid in
      let home : home key H m q ≡ home key H m k = home_congr key H m q k e in
      let both : some at_q.s ≡ some at_k.s = sym at_q.at ∙ ap (get_elem? m.shards) home ∙ at_k.at in
      let one : at_q.s ≡ at_k.s = cc in
      at_q.holds
      ∙ ap (λ s. lookup key q (slots s.data_ptr)) one
      ∙ lookup_congr key q k (slots at_k.s.data_ptr) e
      ∙ sym at_k.holds

  -- A map holds what it holds.
  pub unchanged-Updated :
      (m : DashMap T S) (k : K) (x : Option (K × V))
      → IsValid key H m
      → contents key H m k ≡ x
      → Updated m k x m
  unchanged-Updated m k x valid e = record {
    valid = valid;
    reads = λ q. elim (Bool-cases (key.equal q k)) [
      | inl same ↦ rw same (contents_congr m q k valid same ∙ e)
      | inr differ ↦ rw differ
    ];
    words = λ q. refl;
    size = rw e;
  }

  module _ (m : DashMap T S) (valid : IsValid key H m) (k : K) (loc : Located key H m k) where
    contents_here :
        (q : K)
        → home key H m q ≡ home key H m k
        → contents key H m q ≡ lookup key q (slots loc.s.data_ptr)
    unfolding contents
    contents_here q e = rw (e, loc.at, contents)

    word-put_shard :
        (s' : RwLock T) (q : K)
        → s'.raw ≡ loc.s.raw
        → word key H (put_shard m (home key H m k) s') q ≡ word key H m q
    unfolding word
    word-put_shard s' q same = elim (Bool-cases (home key H m q == home key H m k)) [
      | inl here ↦
          let e : home key H m q ≡ home key H m k = (==_iff _ _).0 here in
          rw
            (
              e,
              get_elem?-set_self m.shards (home key H m k) s'
                  (lt_of_get_elem? m.shards (home key H m k) loc.at),
              word,
              loc.at,
            )
            same
      | inr away ↦
          let ne : home key H m k ≢ home key H m q = ground arith in
          rw (get_elem?-set_ne m.shards (home key H m k) (home key H m q) s' ne, word)
    ]

    reads_at :
        (x : Option (K × V)) (t' : T)
        → Rewrites key H m.hasher m.shift (home key H m k) loc.s.data_ptr k x t'
        → (q : K)
        → (if home key H m q == home key H m k then lookup key q (slots t') else contents key H m q)
          ≡ (if key.equal q k then x else contents key H m q)
    reads_at x t' w q = elim (Bool-cases (home key H m q == home key H m k)) [
      | inl here ↦ rw (here, contents_here q ((==_iff _ _).0 here)) (w.reads q)
      | inr away ↦ elim (Bool-cases (key.equal q k)) [
        | inr differ ↦ rw (away, differ)
        | inl same ↦ let e = home_congr key H m q k same in absurd (ground arith)
      ]
    ]

    -- The shard of `k` with its table rewritten, and the lock as it was.
    pub rewrite-Updated :
        (x : Option (K × V)) (t' : T)
        → Rewrites key H m.hasher m.shift (home key H m k) loc.s.data_ptr k x t'
        → Updated m k x (put_shard m (home key H m k) (record { raw = loc.s.raw; data_ptr = t' }))
    unfolding entries
    rewrite-Updated x t' w =
        let s' : RwLock T = record { raw = loc.s.raw; data_ptr = t' } in
        record {
          valid = put_shard-IsValid key H m valid (home key H m k) loc.s s' loc.at loc.quiet w.ok;
          reads = λ q.
              contents-put_shard key H m valid (home key H m k) loc.s s' loc.at q
              ∙ reads_at x t' w q;
          words = λ q. word-put_shard s' q refl;
          size = rw loc.holds (
              omega (
                arith,
                total-set (λ r. length (slots r.data_ptr)) m.shards (home key H m k) s' loc.at,
                w.size,
              ));
        }

    -- The same after the writer has let go of a lock that was free.
    pub released-Updated :
        (x : Option (K × V)) (t' : T)
        → loc.s.raw ≡ 0
        → Rewrites key H m.hasher m.shift (home key H m k) loc.s.data_ptr k x t'
        → Updated m k x (put_shard m (home key H m k) (record { raw = 0; data_ptr = t' }))
    released-Updated x t' free w =
        subst
          (λ (r : ℕ).
            Updated m k x (put_shard m (home key H m k) (record { raw = r; data_ptr = t' })))
          free (rewrite-Updated x t' w)
