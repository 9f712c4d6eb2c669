-- ===== src/Key.antt =====
-- The type parameters of src/lib.rs: `K: Eq + Hash` and `S: BuildHasher`, with what their traits ask
-- of an implementation. Keys that are equal need not be the same value. A key is also looked up by
-- itself (`Q` is `K`).
use dashmap.Base.{ℕ, ◌^◌, ◌<◌, ◌≡◌, Bool, true, arith}

pub record Key {ℓ} (K S : Type ℓ) : Type ℓ where
  -- `build_hasher`, `hash` and `finish`: a word
  pub hash : S → K → ℕ
  pub hash-lt : (hasher : S) (k : K) → hash hasher k < 2 ^ 64
  -- `==`
  pub equal : K → K → Bool
  pub hash-equal : (hasher : S) (k j : K) → equal k j ≡ true → hash hasher k ≡ hash hasher j
  pub equal_symm : (k j : K) → equal k j ≡ equal j k
  pub equal_refl : (k : K) → equal k k ≡ true
  pub equal_trans : (i j k : K) → equal i j ≡ true → equal j k ≡ true → equal i k ≡ true

module _ {ℓ} {K S : Type ℓ} (key : Key K S) where
  -- Equal keys are equal to the same keys.
  pub equal_congr_right : (q a b : K) → key.equal a b ≡ true → key.equal q a ≡ key.equal q b
  equal_congr_right q a b e =
      ground (arith, key.equal_symm a b, key.equal_trans q a b, key.equal_trans q b a)

  pub equal_congr_left : (a b q : K) → key.equal a b ≡ true → key.equal a q ≡ key.equal b q
  equal_congr_left a b q e =
      ground (arith, key.equal_symm a b, key.equal_trans a b q, key.equal_trans b a q)
