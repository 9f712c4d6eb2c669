-- ===== src/ReadOnly/Reading.antt =====
-- What a read-only view reads.
use dashmap.Base.{◌≡◌, refl, ap, inl, inr, Option, none, some, List, [], ◌∷◌, map, is_some}
use mathlib.Core.Option
use dashmap.Base.Outcome.{done, ◌>>=◌}
use dashmap.Key.{Key}
use dashmap.Table.{HashTable}
use dashmap.Map.{RwLock, DashMap, hash_u64}
use dashmap.Map.State.{IsValid, contents, home, located}
use dashmap.Map.Guards.{shard_at_lem}
use dashmap.Map.Search.{search_shard_lem}
use dashmap.Map.Iter.{pairs}
use dashmap.Map.Pairs.{all_pairs, all_pairs-Lists, Lists}
use dashmap.ReadOnly.{into_read_only, get_key_value, get, contains_key, iter, flat_map}

module _ {ℓ} {K V S : Type ℓ} (key : Key K S) (H : HashTable (K × V)) where
  open H use {T, slots}

  module _ (m : DashMap T S) (valid : IsValid key H m) (k : K) where
    -- The view reads the pair that the map holds under the key, whatever the locks are.
    get_key_value_lem : get_key_value key H (into_read_only m) k ≡ done (contents key H m k)
    unfolding get_key_value
    get_key_value_lem =
        let l = located key H m k valid in
        elim (search_shard_lem key H m.hasher m.shift (home key H m k) l.s.data_ptr k l.ok) [
          | inl miss ↦ rw (
            l.run,
            ◌>>=◌,
            shard_at_lem m (home key H m k) l.s l.at,
            hash_u64,
            miss.run,
            l.holds,
            miss.absent,
          )
          | inr (i, k', v, hit) ↦ rw (
            l.run,
            ◌>>=◌,
            shard_at_lem m (home key H m k) l.s l.at,
            hash_u64,
            hit.run,
            l.holds,
            hit.found,
          )
        ]

    -- On a valid map, whatever its locks are, `get_key_value`, `get` and `contains_key` of its view
    -- return the pair that the map holds under the key, its value, and whether there is one.
    pub reading_lem :
        (get_key_value key H (into_read_only m) k ≡ done (contents key H m k))
        × (get key H (into_read_only m) k ≡ done (Option.map (λ e. e.1) (contents key H m k)))
        × (contains_key key H (into_read_only m) k ≡ done (is_some (contents key H m k)))
    unfolding get contains_key
    reading_lem = (
      get_key_value_lem,
      rw (get_key_value_lem, ◌>>=◌),
      rw (get_key_value_lem, ◌>>=◌) (ap done (both (contents key H m k))),
    )
      where
        both : (x : Option (K × V)) → is_some (Option.map (λ (e : K × V). e.1) x) ≡ is_some x
        both none = refl
        both (some e) = refl

  flat_map_lem :
      (ss : List (RwLock T)) → flat_map (λ t. pairs H t) (map (λ s. s.data_ptr) ss) ≡ all_pairs H ss
  unfolding flat_map all_pairs
  flat_map_lem [] = refl
  flat_map_lem (s ∷ ss) = rw (flat_map_lem ss)

  -- The `iter` of a view of a valid map, whatever its locks are, goes through as many pairs as the
  -- map has entries, with each key that it holds among them once and no other, and with what the
  -- map holds under it.
  pub iter_lem : (m : DashMap T S) → IsValid key H m → Lists key H m (iter key H (into_read_only m))
  unfolding iter
  iter_lem m valid = rw (flat_map_lem m.shards) (all_pairs-Lists key H m valid)
