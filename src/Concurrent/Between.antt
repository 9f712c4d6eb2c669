-- ===== src/Concurrent/Between.antt =====
-- What is true of a map and of the threads between two steps, and what keeps it.
use dashmap.Base.{
  ℕ, ◌+◌, ◌*◌, ◌≡◌, ◌≢◌, ◌⊎◌, sym, ◌∙◌, ap, subst, inl, inr, some, List, [], map, get_elem?, set,
  get_elem?-set_cases, get_elem?-set_ne, get_elem?-set_self, lt_of_get_elem?, ℕ_discrete, eq→==,
  arith, All, All-get_elem?, get_elem?-map_inv,
}
use dashmap.Key.{Key}
use dashmap.Lock.Quiet.{IsQuiet}
use dashmap.Lock.Word.{one_writer}
use dashmap.Table.{HashTable}
use dashmap.Map.{RwLock, DashMap, put_shard}
use dashmap.Map.State.{IsValid, IsShard, home, put_shard-IsValid}
use dashmap.Concurrent.{Call, key_of, Thread, outside, inside, leaving}
use dashmap.Concurrent.Guards.{
  writes, reads, writers, readers, writers-set, readers-set, none-start, Alone, Words,
  put_shard-Words,
}

module _ {ℓ} {K V S : Type ℓ} (key : Key K S) (H : HashTable (K × V)) where
  open H use {T, slots}

  -- A thread with a guard is at the shard of its key, which has the table that the thread has found.
  abbrev pub Fetched : DashMap T S → Thread T K V → Type ℓ
  Fetched m (outside cs rs) = Unit
  Fetched m (inside c idx t cs rs) =
      (s : RwLock T) × (idx ≡ home key H m (key_of c))
      × (get_elem? m.shards idx ≡ some s)
      × (s.data_ptr ≡ t)
  Fetched m (leaving c idx cs rs) = (s : RwLock T) × (get_elem? m.shards idx ≡ some s)

  pub record Between (m : DashMap T S) (ws : List (Thread T K V)) : Type ℓ where
    pub valid : IsValid key H m
    pub words : Words m ws
    pub fetched : (j : ℕ) (w : Thread T K V) → get_elem? ws j ≡ some w → Fetched m w

  pub start-Between :
      (m : DashMap T S) (programs : List (List (Call K V)))
      → IsValid key H m
      → All (λ s. s.raw ≡ 0) m.shards
      → Between m (map (λ cs. outside cs []) programs)
  start-Between m programs valid free = record {
    valid = valid;
    words = record {
      raws = λ i s at.
          let (w, r) = none-start T i programs in
          omega (arith, All-get_elem? (λ x. x.raw ≡ 0) m.shards i free at, w, r);
      alone = λ i. inl (none-start T i programs).0;
    };
    fetched = λ j w at.
        let (cs, there, same) = get_elem?-map_inv _ programs j at in subst (Fetched m) same tt;
  }

  -- A shard changes that a thread has no guard of, or its table stays.
  Fetched-put_shard :
      (m : DashMap T S) (i : ℕ) (s s' : RwLock T) (w : Thread T K V)
      → get_elem? m.shards i ≡ some s
      → (writes i w + reads i w ≡ 0) ⊎ (s'.data_ptr ≡ s.data_ptr)
      → Fetched m w
      → Fetched (put_shard m i s') w
  Fetched-put_shard m i s s' (outside cs rs) at apart f = tt
  Fetched-put_shard m i s s' (inside c idx t cs rs) at apart (r, own, there, table) =
      elim (ℕ_discrete i idx) [
        | no ne ↦ (r, own, get_elem?-set_ne m.shards i idx s' ne ∙ there, table)
        | yes e ↦ elim apart [
          | inl none ↦ absurd (ground (arith, none, eq→== idx i (sym e)))
          | inr same ↦
              let both : some s ≡ some r = sym at ∙ ap (get_elem? m.shards) e ∙ there in
              let one : s ≡ r = cc in
              (
                s',
                own,
                subst (λ (n : ℕ). get_elem? (set m.shards i s') n ≡ some s') e
                    (get_elem?-set_self m.shards i s' (lt_of_get_elem? m.shards i at)),
                same ∙ ap (λ x. x.data_ptr) one ∙ table,
              )
        ]
      ]
  Fetched-put_shard m i s s' (leaving c idx cs rs) at apart (r, there) = elim (ℕ_discrete i idx) [
    | no ne ↦ (r, get_elem?-set_ne m.shards i idx s' ne ∙ there)
    | yes e ↦ (
      s',
      subst (λ (n : ℕ). get_elem? (set m.shards i s') n ≡ some s') e
          (get_elem?-set_self m.shards i s' (lt_of_get_elem? m.shards i at)),
    )
  ]

  -- A thread takes a step that changes shard `i`.
  module _ (m : DashMap T S) (ws : List (Thread T K V)) (b : Between m ws) (j : ℕ)
      (w w' : Thread T K V) (at : get_elem? ws j ≡ some w) (i : ℕ) (s s' : RwLock T)
      (there : get_elem? m.shards i ≡ some s) where
    pub stepped :
        IsQuiet s'.raw
        → IsShard key H m.hasher m.shift i s'.data_ptr
        → s'.raw ≡ writers i (set ws j w') * one_writer + 4 * readers i (set ws j w')
        → Alone i (set ws j w')
        → ((n : ℕ) → i ≢ n → (writes n w' ≡ writes n w) × (reads n w' ≡ reads n w))
        → Fetched (put_shard m i s') w'
        → ((n : ℕ) (u : Thread T K V)
            → get_elem? ws n ≡ some u
            → j ≢ n
            → (writes i u + reads i u ≡ 0) ⊎ (s'.data_ptr ≡ s.data_ptr))
        → Between (put_shard m i s') (set ws j w')
    stepped quiet ok word alone elsewhere mine others = record {
      valid = put_shard-IsValid key H m b.valid i s s' there quiet ok;
      words = put_shard-Words m ws (set ws j w') i s' b.words word alone (λ n ne.
          let (w_same, r_same) = elsewhere n ne in
          (
            omega (arith, w_same, writers-set ws j w' at n),
            omega (arith, r_same, readers-set ws j w' at n),
          ));
      fetched = λ n u at'. elim (get_elem?-set_cases ws j n w' at') [
        | inl (_, e) ↦ subst (Fetched (put_shard m i s')) e mine
        | inr (ne, old) ↦ Fetched-put_shard m i s s' u there (others n u old ne) (b.fetched n u old)
      ];
    }
