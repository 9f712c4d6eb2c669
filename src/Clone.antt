-- ===== src/Clone.antt =====
-- The `Clone` that src/lib.rs asks of keys, values and hashers, and that of `hashbrown::HashTable`.
-- None of them is in the repository: a record of the functions, with what their documentation says.
use dashmap.Base.{ℕ, ◌≡◌, true, map, Permᴰ}
use dashmap.Key.{Key}
use dashmap.Table.{HashTable}

pub record Clone {ℓ} {K V S : Type ℓ} (key : Key K S) (H : HashTable (K × V)) : Type ℓ where
  pub clone_key : K → K
  pub clone_value : V → V
  pub clone_hasher : S → S
  pub clone_table : H.T → H.T
  -- A key that implements `Eq` equals its copy.
  pub equal-clone_key : (k : K) → key.equal k (clone_key k) ≡ true
  -- The copy of a `BuildHasher` makes hashers that hash alike.
  pub hash-clone_hasher :
      (hasher : S) (k : K) → key.hash (clone_hasher hasher) k ≡ key.hash hasher k
  -- A table is copied entry by entry, without its hashes being computed again.
  pub slots-clone_table :
      (t : H.T)
      → Permᴰ
          (H.slots (clone_table t))
          (map (λ (e : ℕ × (K × V)). (e.0, (clone_key e.1.0, clone_value e.1.1))) (H.slots t))

module _ {ℓ} {K V S : Type ℓ} {key : Key K S} {H : HashTable (K × V)} (C : Clone key H) where
  -- the copy of a pair
  abbrev pub clone_pair : K × V → K × V
  clone_pair e = (C.clone_key e.0, C.clone_value e.1)
