-- ===== src/Map/Copying.antt =====
-- What `clone` makes.
use dashmap.Base.{
  ◌+◌, ◌^◌, ◌≡◌, refl, ◌∙◌, ap, ◌⊎◌, inl, inr, Bool, true, false, ◌||◌, List, [], ◌∷◌, map, All,
  length, total, lt→ltb, ==_iff, ◌==◌, if◌then◌else◌, arith, Bool-cases,
}
use mathlib.Core.Option
use dashmap.Base.Outcome.{done, blocked, ◌>>=◌}
use dashmap.Key.{Key}
use dashmap.Lock.Word.{one_writer}
use dashmap.Lock.Quiet.{lock_shared_lem, unlock_shared_lem}
use dashmap.Table.{HashTable}
use dashmap.Clone.{Clone, clone_pair}
use dashmap.Map.{RwLock, DashMap}
use dashmap.Map.State.{IsValid, contents, word, entries}
use dashmap.Map.Whole.{for_each, clone_rwlock, clone}
use dashmap.Map.Copied.{
  clone_table-IsShard, lookup-clone_table, length-clone_table, under_copy, contents-under_copy,
  word-under_copy, under_copy-IsValid,
}
use dashmap.Map.Loops.{
  IsReadable, changed, everywhere, everywhere-IsValid, contents-everywhere, word-everywhere,
}

module _ {ℓ} {T : Type ℓ} where
  -- Some shard is being written to.
  unfoldable pub written : List (RwLock T) → Bool
  written [] = false
  written (s ∷ ss) = s.raw == one_writer || written ss

  -- A lock that a reader can take, or that a writer has.
  abbrev pub IsUsable : RwLock T → Type 0
  IsUsable s = IsReadable s ⊎ (s.raw ≡ one_writer)

module _ {ℓ} {T : Type ℓ} (f : T → T) where
  -- a copy with a lock of its own, and the shard
  abbrev with_copy : RwLock T → RwLock T × RwLock T
  with_copy s = (changed f s, s)

  clone_rwlock-read : (s : RwLock T) → IsReadable s → clone_rwlock f s ≡ done (with_copy s)
  unfolding clone_rwlock
  clone_rwlock-read s ok =
      let room = ok.room in
      rw (
        lock_shared_lem s.raw ok.quiet,
        lt→ltb (s.raw + 8) (2 ^ 64) room,
        ◌>>=◌,
        unlock_shared_lem s.raw ok.quiet (omega arith),
      )

  clone_rwlock-written : (s : RwLock T) → s.raw ≡ one_writer → clone_rwlock f s ≡ blocked
  unfolding clone_rwlock
  clone_rwlock-written s e =
      rw (e, lock_shared_lem one_writer (record { fits = omega arith; no_flags = refl }))

  for_each-clone_rwlock :
      (ss : List (RwLock T))
      → All IsUsable ss
      → for_each (clone_rwlock f) ss ≡ (if written ss then blocked else done (map with_copy ss))
  unfolding for_each written
  for_each-clone_rwlock [] ok = refl
  for_each-clone_rwlock (s ∷ ss) ok = elim ok.0 [
    | inr taken ↦
        let here : (s.raw == one_writer) ≡ true = (==_iff _ _).1 taken in
        rw (here, clone_rwlock-written s taken, ◌>>=◌)
    | inl free ↦
        let room = free.room in
        let here : (s.raw == one_writer) ≡ false = ground arith in
        elim (Bool-cases (written ss)) [
          | inl w ↦ rw (here, clone_rwlock-read s free, ◌>>=◌, for_each-clone_rwlock ss ok.1, w)
          | inr w ↦ rw (here, clone_rwlock-read s free, ◌>>=◌, for_each-clone_rwlock ss ok.1, w)
        ]
  ]

  copies : (ss : List (RwLock T)) → map (λ p. p.0) (map with_copy ss) ≡ map (changed f) ss
  copies [] = refl
  copies (s ∷ ss) = ap (λ l. changed f s ∷ l) (copies ss)

  originals : (ss : List (RwLock T)) → map (λ p. p.1) (map with_copy ss) ≡ ss
  originals [] = refl
  originals (s ∷ ss) = ap (λ l. s ∷ l) (originals ss)

module _ {ℓ} {K V S : Type ℓ} (key : Key K S) (H : HashTable (K × V)) (C : Clone key H) where
  open H use {T, slots}

  -- A copy of a map: valid, with every lock free, with the copy of the pair under each key, and with
  -- as many entries.
  pub record IsCopy (m m' : DashMap T S) : Type ℓ where
    pub valid : IsValid key H m'
    pub same : (q : K) → contents key H m' q ≡ Option.map (clone_pair C) (contents key H m q)
    pub free : (q : K) → word key H m' q ≡ 0
    pub size : entries key H m' ≡ entries key H m

  -- the map that `clone` makes
  abbrev copied : DashMap T S → DashMap T S
  copied m = under_copy key H C (record m { shards = map (changed C.clone_table) m.shards })

  total-copies :
      (ss : List (RwLock T))
      → total (λ s. length (slots s.data_ptr)) (map (changed C.clone_table) ss)
        ≡ total (λ s. length (slots s.data_ptr)) ss
  unfolding total
  total-copies [] = refl
  total-copies (s ∷ ss) = omega (arith, length-clone_table key H C s.data_ptr, total-copies ss)

  copied-IsCopy : (m : DashMap T S) → IsValid key H m → IsCopy m (copied m)
  unfolding entries
  copied-IsCopy m valid =
      let g = Option.map (clone_pair C) in
      let ok = clone_table-IsShard key H C m.hasher m.shift in
      let reads = lookup-clone_table key H C m.hasher m.shift in
      let m' = everywhere key H m valid C.clone_table in
      record {
        valid =
            under_copy-IsValid key H C m'
              (everywhere-IsValid key H m valid C.clone_table g ok reads);
        same = λ q.
            contents-under_copy key H C m' q
            ∙ contents-everywhere key H m valid C.clone_table g ok reads q;
        free = λ q.
            word-under_copy key H C m' q ∙ word-everywhere key H m valid C.clone_table g ok reads q;
        size = total-copies m.shards;
      }

  -- `clone` of a valid map each of whose locks is a writer's, or has no writer and room for one more
  -- reader: it waits where some lock is a writer's, and else it leaves the map and its locks as they
  -- were, and gives a valid map with every lock free, with as many entries, and with the clones of
  -- the key and of the value under each key.
  pub clone_lem :
      (m : DashMap T S)
      → IsValid key H m
      → All IsUsable m.shards
      → (m' : DashMap T S) × (clone key H C m
          ≡ (if written m.shards then blocked else done (m', m)))
        × IsCopy m m'
  unfolding clone
  clone_lem m valid usable =
      let run = for_each-clone_rwlock C.clone_table m.shards usable in
      (
        copied m,
        elim (Bool-cases (written m.shards)) [
          | inl w ↦ rw (run, w, ◌>>=◌)
          | inr w ↦
              rw (run, w, ◌>>=◌, copies C.clone_table m.shards, originals C.clone_table m.shards)
        ],
        copied-IsCopy m valid,
      )
