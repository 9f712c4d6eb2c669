-- ===== src/Map/Sizes.antt =====
-- `len`, `is_empty` and `capacity`.
use dashmap.Base.{ℕ, ◌<◌, ◌^◌, ◌≤◌, ◌≡◌, ap, List, [], ◌∷◌, length, All, total, arith, ◌==◌}
use dashmap.Base.Outcome.{done, ◌>>=◌}
use dashmap.Key.{Key}
use dashmap.Table.{HashTable}
use dashmap.Map.{RwLock, DashMap}
use dashmap.Map.State.{entries}
use dashmap.Map.Whole.{len, is_empty, capacity, sum_each}
use dashmap.Map.Loops.{IsReadable, sum_read_lem}

module _ {ℓ} {K V S : Type ℓ} (key : Key K S) (H : HashTable (K × V)) where
  open H use {T, slots}

  -- what the tables of a map have room for
  unfoldable pub room : DashMap T S → ℕ
  room m = total (λ s. H.capacity s.data_ptr) m.shards

  -- Where each lock of a map has no writer and room for one more reader and the number of its
  -- entries fits a word, `len` is that number, and leaves every lock as it was.
  pub len_lem :
      (m : DashMap T S)
      → All IsReadable m.shards
      → entries key H m < 2 ^ 64
      → len key H m ≡ done (entries key H m, m)
  unfolding len entries sum_each
  len_lem m readable small =
      rw (sum_read_lem (λ t. length (slots t)) 0 m.shards readable (omega arith), ◌>>=◌)
        (ap (λ (n : ℕ). done (n, m)) (omega arith))

  -- `is_empty` then says whether that number is zero.
  pub is_empty_lem :
      (m : DashMap T S)
      → All IsReadable m.shards
      → entries key H m < 2 ^ 64
      → is_empty key H m ≡ done (entries key H m == 0, m)
  unfolding is_empty
  is_empty_lem m readable small = rw (len_lem m readable small, ◌>>=◌)

  pub le_rooms :
      (ss : List (RwLock T))
      → total (λ s. length (slots s.data_ptr)) ss ≤ total (λ s. H.capacity s.data_ptr) ss
  unfolding total
  le_rooms [] = omega arith
  le_rooms (s ∷ ss) = omega (arith, le_rooms ss, H.length-le-capacity s.data_ptr)

  -- Where each lock of a map has no writer and room for one more reader and the sum of the
  -- capacities of its tables fits a word, `capacity` returns that sum, `len` returns the number of
  -- the entries in all shards, which is not larger, `is_empty` says whether that number is zero, and
  -- all three leave the map and its locks as they were.
  pub capacity_lem :
      (m : DashMap T S)
      → All IsReadable m.shards
      → room m < 2 ^ 64
      → (capacity key H m ≡ done (room m, m))
        × (len key H m ≡ done (entries key H m, m))
        × (is_empty key H m ≡ done (entries key H m == 0, m))
        × (entries key H m ≤ room m)
  unfolding capacity sum_each room entries
  capacity_lem m readable small = (
    rw (sum_read_lem H.capacity 0 m.shards readable (omega arith), ◌>>=◌)
        (ap (λ (n : ℕ). done (n, m)) (omega arith)),
    len_lem m readable (omega (arith, fits)),
    is_empty_lem m readable (omega (arith, fits)),
    fits,
  )
    where
      fits : entries key H m ≤ room m
      fits = le_rooms m.shards
