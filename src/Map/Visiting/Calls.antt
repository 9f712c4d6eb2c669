-- ===== src/Map/Visiting/Calls.antt =====
-- One call of `next` of an `Iter`, and its drop.
use dashmap.Base.{
  ℕ, zero, suc, ◌+◌, ◌-◌, ◌≤◌, ◌<◌, ◌≡◌, ◌≢◌, refl, sym, ◌∙◌, ap, Option, none, some, List, [], ◌∷◌,
  ◌++◌, length, All, All-get_elem?, get_elem?, drop, drop-get_elem?, drop_all, set_comm,
  get_elem?_within, get_elem?-set_ne, lt_of_get_elem?, length-set, arith,
}
use dashmap.Base.Outcome.{Outcome, done, ◌>>=◌}
use mathlib.Core.Option
use dashmap.Table.{HashTable}
use dashmap.Map.{RwLock, DashMap, put_shard, read, drop_read}
use dashmap.Map.Guards.{read_lem, drop_read_lem}
use dashmap.Map.Loops.{IsReadable}
use dashmap.Map.Iter.{Iter, RefMulti, next, next_shard, drop_iter, pairs}
use dashmap.Map.Pairs.{all_pairs}
use dashmap.Map.Owning.{head, tail}

module _ {ℓ} {K V S : Type ℓ} (H : HashTable (K × V)) (m : DashMap H.T S)
    (readable : All IsReadable m.shards) where
  open H use {T, slots}

  abbrev pub reader : RwLock T → RwLock T
  reader s = record s { raw = s.raw + 4 }

  -- The map while the iterator holds what it holds.
  abbrev pub Holds : ℕ → Option (ℕ × List (K × V)) → DashMap T S → Type ℓ
  Holds i none m' = m' ≡ m
  Holds i (some (j, es)) m' =
      (s : RwLock T) × (get_elem? m.shards j ≡ some s) × (j < i) × (m' ≡ put_shard m j (reader s))

  abbrev pub in_hand : Option (ℕ × List (K × V)) → List (K × V)
  in_hand none = []
  in_hand (some (_, es)) = es

  -- An iterator between calls, and what is still to come.
  pub record At (it : Iter K V) (m' : DashMap T S) : Type ℓ where
    pub holds : Holds it.shards it.current m'
    pub within : it.shards ≤ length m.shards

  abbrev pub to_come : Iter K V → List (K × V)
  to_come it = in_hand it.current ++ all_pairs H (drop it.shards m.shards)

  -- The guard goes, and the map is as it was.
  pub drop_iter_lem : (it : Iter K V) (m' : DashMap T S) → At it m' → drop_iter H it m' ≡ done m
  unfolding drop_iter
  drop_iter_lem it m' at = from it.shards it.current at.holds
    where
      from :
          (i : ℕ) (current : Option (ℕ × List (K × V)))
          → Holds i current m'
          → drop_iter H (record { shards = i; current = current }) m' ≡ done m
      from i none e = ap done e
      from i (some (j, es)) (s, there, _, e) =
          let ok = All-get_elem? IsReadable m.shards j readable there in
          rw e (drop_read_lem m j s there ok.quiet ok.room)

  -- The lock of the next shard is taken, and then the guard of the last one goes.
  enter :
      (it : Iter K V) (m' : DashMap T S) (s : RwLock T)
      → At it m'
      → get_elem? m.shards it.shards ≡ some s
      → (m'' : DashMap T S) × (read m' it.shards ≡ done (s.data_ptr, m''))
        × (drop_iter H it m'' ≡ done (put_shard m it.shards (reader s)))
  unfolding drop_iter
  enter it m' s at there = from it.current at.holds
    where
      ok : IsReadable s
      ok = All-get_elem? IsReadable m.shards it.shards readable there

      from :
          (current : Option (ℕ × List (K × V)))
          → Holds it.shards current m'
          → (m'' : DashMap T S) × (read m' it.shards ≡ done (s.data_ptr, m''))
            × (drop_iter H (record { shards = it.shards; current = current }) m''
                ≡ done (put_shard m it.shards (reader s)))
      from none e = (
        put_shard m it.shards (reader s),
        rw e (read_lem m it.shards s there ok.quiet ok.room),
        refl,
      )
      from (some (j, es)) (r, at_j, below, e) =
          let held = put_shard m j (reader r) in
          let ne : j ≢ it.shards = λ (e' : j ≡ it.shards). omega arith in
          let still = get_elem?-set_ne m.shards j it.shards (reader r) ne ∙ there in
          let ok_j = All-get_elem? IsReadable m.shards j readable at_j in
          let entered = put_shard m it.shards (reader s) in
          let back : it.shards ≢ j = λ (e' : it.shards ≡ j). ne (sym e') in
          let at_j' = get_elem?-set_ne m.shards it.shards j (reader s) back ∙ at_j in
          (
            put_shard held it.shards (reader s),
            rw e (read_lem held it.shards s still ok.quiet ok.room),
            ap (λ l. drop_read j (record { shift = m.shift; shards = l; hasher = m.hasher }))
                  (set_comm m.shards j it.shards (reader r) (reader s) ne)
                ∙ drop_read_lem entered j r at_j' ok_j.quiet ok_j.room,
          )

  -- What a call of `next` does where `ps` is still to come.
  pub record Nexts (ps : List (K × V))
      (run : Outcome (Option (RefMulti K V) × Iter K V × DashMap T S)) : Type ℓ where
    pub r : Option (RefMulti K V)
    pub it' : Iter K V
    pub m'' : DashMap T S
    pub runs : run ≡ done (r, it', m'')
    pub at : At it' m''
    pub first : Option.map (λ e. (e.k, e.v)) r ≡ head ps
    pub others : to_come it' ≡ tail ps

  -- A shard entered: its pairs are `ps`, and `rest` stands for the shards after it.
  visit :
      (i : ℕ) (s : RwLock T) (rest : Outcome (Option (RefMulti K V) × Iter K V × DashMap T S))
      (ps : List (K × V))
      → get_elem? m.shards i ≡ some s
      → Nexts (all_pairs H (drop (suc i) m.shards)) rest
      → Nexts (ps ++ all_pairs H (drop (suc i) m.shards)) (elim ps [
        | [] ↦ rest
        | e ∷ es ↦ done (
          some (record { guard = i; k = e.0; v = e.1 }),
          record { shards = suc i; current = some (i, es) },
          put_shard m i (reader s),
        )
      ])
  visit i s rest [] there h = h
  visit i s rest (e ∷ es) there h = record {
    r = some (record { guard = i; k = e.0; v = e.1 });
    it' = record { shards = suc i; current = some (i, es) };
    m'' = put_shard m i (reader s);
    runs = refl;
    at = record {
      holds = (s, there, omega arith, refl);
      within = omega (arith, lt_of_get_elem? m.shards i there);
    };
    first = refl;
    others = refl;
  }

  next_shard_lem :
      (k : ℕ) (it : Iter K V) (m' : DashMap T S)
      → At it m'
      → it.shards + k ≡ length m.shards
      → in_hand it.current ≡ []
      → Nexts (all_pairs H (drop it.shards m.shards)) (next_shard H k it m')
  unfolding next_shard all_pairs
  next_shard_lem zero it m' at count nothing =
      let over = drop_all m.shards it.shards (omega arith) in
      rw over (record {
        r = none;
        it' = it;
        m'' = m';
        runs = refl;
        at = at;
        first = refl;
        others = rw (nothing, over);
      })
  next_shard_lem (suc k) it m' at count nothing =
      let (s, there) = get_elem?_within m.shards it.shards (omega arith) in
      let (m₁, locks, drops) = enter it m' s at there in
      let i = it.shards in
      let entered : Iter K V = record { shards = suc i; current = some (i, []) } in
      let m₂ = put_shard m i (reader s) in
      let ih =
        next_shard_lem k entered m₂
          (record { holds = (s, there, omega arith, refl); within = omega arith }) (omega arith)
          refl in
      rw (locks, ◌>>=◌, drops, drop-get_elem? m.shards i there)
        (visit i s (next_shard H k entered m₂) (pairs H s.data_ptr) there ih)

  pub next_lem : (it : Iter K V) (m' : DashMap T S) → At it m' → Nexts (to_come it) (next H it m')
  unfolding next
  next_lem it m' at = from it.shards it.current at.holds at.within
    where
      same_length :
          (i : ℕ) (current : Option (ℕ × List (K × V)))
          → Holds i current m'
          → length m'.shards ≡ length m.shards
      same_length i none e = ap (λ x. length x.shards) e
      same_length i (some (j, es)) (s, _, _, e) =
          ap (λ x. length x.shards) e ∙ length-set m.shards j (reader s)

      go :
          (i : ℕ) (current : Option (ℕ × List (K × V)))
          → Holds i current m'
          → i ≤ length m.shards
          → in_hand current ≡ []
          → Nexts
              (all_pairs H (drop i m.shards))
              (next_shard H (length m'.shards - i) (record { shards = i; current = current }) m')
      go i current h w nothing =
          next_shard_lem (length m'.shards - i) (record { shards = i; current = current }) m'
            (record { holds = h; within = w }) (omega (arith, same_length i current h)) nothing

      from :
          (i : ℕ) (current : Option (ℕ × List (K × V)))
          → Holds i current m'
          → i ≤ length m.shards
          → let it : Iter K V = record { shards = i; current = current } in
            Nexts (to_come it) (next H it m')
      from i none h w = go i none h w refl
      from i (some (j, [])) h w = go i (some (j, [])) h w refl
      from i (some (j, e ∷ es)) (s, there, below, e') w = record {
        r = some (record { guard = j; k = e.0; v = e.1 });
        it' = record { shards = i; current = some (j, es) };
        m'' = m';
        runs = refl;
        at = record { holds = (s, there, below, e'); within = w };
        first = refl;
        others = refl;
      }
