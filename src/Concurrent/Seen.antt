-- ===== src/Concurrent/Seen.antt =====
-- The threads between two steps, as they are seen from outside: a call has happened when its work is
-- done, and has not begun before; every lock is free.
use dashmap.Base.{
  ℕ, ◌≡◌, sym, ◌∙◌, ap, subst, some, ◌∷◌, map, get_elem?, get_elem?-map, map-set,
  get_elem?-set_self, lt_of_get_elem?,
}
use dashmap.Base.Outcome.{done}
use dashmap.Key.{Key}
use dashmap.Table.{HashTable}
use dashmap.Map.{RwLock, DashMap, put_shard}
use dashmap.Map.State.{IsValid, IsShard, home, located}
use dashmap.Map.Loops.{changed}
use dashmap.Rayon.Released.{released, released-IsValid, word-released}
use dashmap.Concurrent.{Call, key_of, Thread, outside, inside, leaving, Threads, invoke}
use dashmap.Concurrent.Sections.{made_of, after}
use dashmap.Concurrent.Sections.Whole.{invoke_lem, after-IsValid}

module _ {ℓ} {T K V : Type ℓ} where
  abbrev pub seen_thread : Thread T K V → Thread T K V
  seen_thread (outside cs rs) = outside cs rs
  seen_thread (inside c idx t cs rs) = outside (c ∷ cs) rs
  seen_thread (leaving c idx cs rs) = outside cs rs

module _ {ℓ} {T S K V : Type ℓ} where
  abbrev pub seen : Threads T S K V → Threads T S K V
  seen p = record { map = released p.map; threads = map seen_thread p.threads }

module _ {ℓ} {T S : Type ℓ} where
  pub released-put_shard :
      (m : DashMap T S) (i : ℕ) (s : RwLock T)
      → released (put_shard m i s)
        ≡ put_shard (released m) i (record { raw = 0; data_ptr = s.data_ptr })
  released-put_shard m i s =
      ap (λ l. record m { shards = l }) (map-set (changed (λ t. t)) m.shards i s)

module _ {ℓ} {K V S : Type ℓ} (key : Key K S) (H : HashTable (K × V)) (m : DashMap H.T S)
    (valid : IsValid key H m) where
  open H use {T, slots}

  -- The work of a call on the table of its shard is the whole call, seen from outside.
  pub happens :
      (c : Call K V) (s : RwLock T) (raw : ℕ)
      → get_elem? m.shards (home key H m (key_of c)) ≡ some s
      → let made = made_of key H m valid c s.data_ptr in
        (invoke key H c (released m)
          ≡ done (
            made.0,
            released
                (put_shard m (home key H m (key_of c)) (record { raw = raw; data_ptr = made.1 })),
          ))
        × IsShard key H m.hasher m.shift (home key H m (key_of c)) made.1
  happens c s raw at =
      let rm = released m in
      let i = home key H m (key_of c) in
      let valid_r = released-IsValid key H m valid in
      let l = located key H rm (key_of c) valid_r in
      let there = get_elem?-map (changed (λ t. t)) m.shards i at in
      let both : some l.s ≡ some (changed (λ t. t) s) = sym l.at ∙ there in
      let same : l.s ≡ changed (λ t. t) s = cc in
      let free = word-released key H m valid (key_of c) in
      let made = made_of key H m valid c s.data_ptr in
      let new : RwLock T = record { raw = 0; data_ptr = made.1 } in
      let table : l.s.data_ptr ≡ s.data_ptr = ap (λ x. x.data_ptr) same in
      let left : after key H rm valid_r c ≡ put_shard rm i new =
        ap (λ t. put_shard rm i (record { raw = 0; data_ptr = (made_of key H m valid c t).1 }))
          table in
      let ok = subst (IsValid key H) left (after-IsValid key H rm valid_r c free) in
      (
        invoke_lem key H rm valid_r c free
            ∙ ap (λ t. done ((made_of key H m valid c t).0, after key H rm valid_r c)) table
            ∙ ap (λ x. done (made.0, x))
                (left ∙ sym (released-put_shard m i (record { raw = raw; data_ptr = made.1 }))),
        ok.shard i new (get_elem?-set_self rm.shards i new (lt_of_get_elem? rm.shards i there)),
      )
