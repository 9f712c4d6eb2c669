-- ===== src/Map/Making.antt =====
-- src/lib.rs: the constructors, `extend` and `from_iter`. `parallelism` is what
-- `available_parallelism` returned; `RandomState` and `S: Default` give the hasher.
use dashmap.Base.{ℕ, Option, List, [], ◌∷◌}
use dashmap.Base.Outcome.{Outcome, done, ◌>>=◌}
use dashmap.Key.{Key}
use dashmap.Shards
use dashmap.Table.{HashTable}
use dashmap.Map.{DashMap, with_capacity_and_hasher_and_shard_amount}
use dashmap.Map.Entry.{insert}

module _ {ℓ} {K V S : Type ℓ} (key : Key K S) (H : HashTable (K × V)) where
  open H use {T, slots}

  unfoldable pub with_capacity_and_hasher : Option ℕ → ℕ → S → Outcome (DashMap T S)
  unfolding with_capacity_and_hasher_and_shard_amount
  with_capacity_and_hasher parallelism capacity hasher = do
    shard_amount ← Shards.default_shard_amount parallelism
    with_capacity_and_hasher_and_shard_amount key H capacity hasher shard_amount

  unfoldable pub with_hasher : Option ℕ → S → Outcome (DashMap T S)
  unfolding with_capacity_and_hasher
  with_hasher parallelism hasher = with_capacity_and_hasher parallelism 0 hasher

  unfoldable pub with_hasher_and_shard_amount : S → ℕ → Outcome (DashMap T S)
  unfolding with_capacity_and_hasher_and_shard_amount
  with_hasher_and_shard_amount hasher shard_amount =
      with_capacity_and_hasher_and_shard_amount key H 0 hasher shard_amount

  -- with a hasher of `RandomState`
  module _ (random_state : S) where
    unfoldable pub new : Option ℕ → Outcome (DashMap T S)
    unfolding with_hasher
    new parallelism = with_hasher parallelism random_state

    unfoldable pub with_capacity : Option ℕ → ℕ → Outcome (DashMap T S)
    unfolding with_capacity_and_hasher
    with_capacity parallelism capacity = with_capacity_and_hasher parallelism capacity random_state

    unfoldable pub with_shard_amount : ℕ → Outcome (DashMap T S)
    unfolding with_capacity_and_hasher_and_shard_amount
    with_shard_amount shard_amount =
        with_capacity_and_hasher_and_shard_amount key H 0 random_state shard_amount

    unfoldable pub with_capacity_and_shard_amount : ℕ → ℕ → Outcome (DashMap T S)
    unfolding with_capacity_and_hasher_and_shard_amount
    with_capacity_and_shard_amount capacity shard_amount =
        with_capacity_and_hasher_and_shard_amount key H capacity random_state shard_amount

  -- with the hasher of `S: Default`
  unfoldable pub default : Option ℕ → S → Outcome (DashMap T S)
  unfolding with_hasher
  default parallelism default_hasher = with_hasher parallelism default_hasher

  unfoldable pub extend : DashMap T S → List (K × V) → Outcome (DashMap T S)
  unfolding insert
  extend m [] = done m
  extend m ((k, v) ∷ pairs) = do (_, m') ← insert key H m k v; extend m' pairs

  unfoldable pub from_iter : Option ℕ → S → List (K × V) → Outcome (DashMap T S)
  unfolding default extend
  from_iter parallelism default_hasher pairs = do
    map ← default parallelism default_hasher
    extend map pairs
