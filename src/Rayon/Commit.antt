-- ===== src/Rayon/Commit.antt =====
-- The second half of an `insert`: what it does where another call has run meanwhile.
use dashmap.Base.{ℕ, ◌≡◌, refl, Option, none, some, get_elem?, List, [], ◌∷◌, ◌++◌}
use dashmap.Base.Outcome.{Outcome, done, blocked, panicked, ◌>>=◌}
use dashmap.Key.{Key}
use dashmap.Lock.Word.{one_writer}
use dashmap.Table.{HashTable}
use dashmap.Map.{DashMap, put_shard, rehash, store}
use dashmap.Map.Guards.{shard_at_lem, drop_write_lem}
use dashmap.Map.Occupied
use dashmap.Map.Vacant
use dashmap.Map.Entry.{Entry, occupied, vacant, entry, insert}
use dashmap.Map.Making.{extend}
use dashmap.Rayon.{complete}

module _ {ℓ} {K V : Type ℓ} where
  -- the shard whose lock an entry holds
  abbrev pub shard_of : Entry K V → ℕ
  shard_of (occupied o) = o.shard
  shard_of (vacant e) = e.shard

  abbrev pub old_value : Entry K V → Option V
  old_value (occupied o) = some (Occupied.get o)
  old_value (vacant e) = none

module _ {ℓ} {K V S : Type ℓ} (key : Key K S) (H : HashTable (K × V)) where
  open H use {T, slots}

  -- the table that an entry leaves
  abbrev pub new_table : Entry K V → V → (K × V → ℕ) → T → T
  new_table (occupied o) v hasher t = H.write t o.pos (o.entry.0, v)
  new_table (vacant e) v hasher t = (H.insert t e.hash (e.key, v) hasher).0

  -- What the second half does depends on the shard of the entry only, and changes no other.
  pub complete_lem :
      (e : Entry K V) (v : V) (c : DashMap T S) (t : T)
      → get_elem? c.shards (shard_of e) ≡ some (record { raw = one_writer; data_ptr = t })
      → complete key H e v c
        ≡ done (
          old_value e,
          put_shard c
              (shard_of e)
              (record { raw = 0; data_ptr = new_table e v (rehash key H c) t }),
        )
  unfolding complete Occupied.insert Occupied.set_mut Occupied.replace Vacant.insert store
  complete_lem (occupied o) v c t at =
      rw (shard_at_lem c o.shard _ at, ◌>>=◌, drop_write_lem c o.shard _ at _)
  complete_lem (vacant e) v c t at =
      rw (shard_at_lem c e.shard _ at, ◌>>=◌, drop_write_lem c e.shard _ at _)

  -- The two halves of a call make the call.
  pub insert_parts :
      (m : DashMap T S) (k : K) (v : V)
      → insert key H m k v ≡ (entry key H m k >>= (λ x. complete key H x.0 v x.1))
  unfolding insert complete
  insert_parts m k v = of (entry key H m k)
    where
      of :
          (r : Outcome (Entry K V × DashMap T S))
          → (r >>= (λ x. elim x.0 [
            | occupied o ↦ complete key H (occupied o) v x.1
            | vacant e ↦ complete key H (vacant e) v x.1
          ]))
            ≡ (r >>= (λ x. complete key H x.0 v x.1))
      of (done (occupied o, m')) = refl
      of (done (vacant e, m')) = refl
      of blocked = refl
      of panicked = refl

  pub extend-append :
      (m : DashMap T S) (xs ys : List (K × V))
      → extend key H m (xs ++ ys) ≡ (extend key H m xs >>= (λ m'. extend key H m' ys))
  unfolding extend
  extend-append m [] ys = refl
  extend-append m ((k, v) ∷ xs) ys = of (insert key H m k v) (λ m'. extend-append m' xs ys)
    where
      of :
          (r : Outcome (Option V × DashMap T S))
          → ((m' : DashMap T S)
              → extend key H m' (xs ++ ys) ≡ (extend key H m' xs >>= (λ m''. extend key H m'' ys)))
          → (r >>= (λ x. extend key H x.1 (xs ++ ys)))
            ≡ ((r >>= (λ x. extend key H x.1 xs)) >>= (λ m'. extend key H m' ys))
      of (done (old, m')) later = later m'
      of blocked later = refl
      of panicked later = refl
