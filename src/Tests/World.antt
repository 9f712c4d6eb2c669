-- ===== src/Tests/World.antt =====
-- Keys that are numbers, and a map of two shards with an entry in each.
use dashmap.Base.{
  ℕ, zero, suc, ◌*◌, ◌%◌, ◌^◌, ◌<◌, ◌≡◌, refl, ap, subst, true, Option, none, some, List, [], ◌∷◌,
  get_elem?, ◌==◌, ==_iff, arith,
}
use dashmap.Key.{Key}
use dashmap.Lock.Quiet.{IsQuiet}
use dashmap.Table.{HashTable}
use dashmap.Table.Entries.{count}
use dashmap.Map.{RwLock, DashMap}
use dashmap.Map.State.{IsValid, IsShard}
use dashmap.Tests.ListTable.{list_table}

-- The shard of a key is its last digit, with two shards and a factor of 1.
abbrev pub hash_of : ℕ → ℕ → ℕ
hash_of factor k = factor * k * 2 ^ 56 % 2 ^ 64

pub eq_refl : (a : ℕ) → (a == a) ≡ true
eq_refl a = ground arith

pub eq_symm : (a b : ℕ) → (a == b) ≡ (b == a)
eq_symm a b = ground arith

pub eq_trans : (a b c : ℕ) → (a == b) ≡ true → (b == c) ≡ true → (a == c) ≡ true
eq_trans a b c e f = ground arith

pub hash_of-lt : (s a : ℕ) → hash_of s a < 2 ^ 64
hash_of-lt s a = omega arith

abbrev pub numbers : Key ℕ ℕ
numbers = record {
  equal = λ a b. a == b;
  hash = hash_of;
  equal_refl = eq_refl;
  equal_symm = eq_symm;
  equal_trans = eq_trans;
  hash-equal = λ s a b e. ap (hash_of s) ((==_iff a b).0 e);
  hash-lt = hash_of-lt;
}

abbrev pub table : {V : Type 0} → HashTable (ℕ × V)
table = list_table

-- What the words of the two locks are, and the values under 2 and 1.
abbrev pub world : {V : Type 0} → ℕ → ℕ → V → V → DashMap (ℕ × List (ℕ × (ℕ × V))) ℕ
world a b v w = record {
  shift = 63;
  shards =
      record { raw = a; data_ptr = (8, (hash_of 1 2, (2, v)) ∷ []) }
      ∷ record { raw = b; data_ptr = (8, (hash_of 1 1, (1, w)) ∷ []) }
      ∷ [];
  hasher = 1;
}

module _ {V : Type 0} (a b : ℕ) (v w : V) where
  pub world-IsValid : IsQuiet a → IsQuiet b → IsValid numbers table (world a b v w)
  unfolding count
  world-IsValid p q = record {
    bits = 1;
    few = omega arith;
    some_shards = omega arith;
    shifts = refl;
    width = refl;
    quiet = λ i s at. quiet_at i s at;
    shard = λ i s at. shard_at i s at;
  }
    where
      quiet_at :
          (i : ℕ) (s : RwLock (ℕ × List (ℕ × (ℕ × V))))
          → get_elem? (world a b v w).shards i ≡ some s
          → IsQuiet s.raw
      quiet_at zero s at =
          subst
            (λ (o : Option (RwLock (ℕ × List (ℕ × (ℕ × V))))). elim o [
              | none ↦ Unit {0}
              | some r ↦ IsQuiet r.raw
            ])
            at p
      quiet_at (suc zero) s at =
          subst
            (λ (o : Option (RwLock (ℕ × List (ℕ × (ℕ × V))))). elim o [
              | none ↦ Unit {0}
              | some r ↦ IsQuiet r.raw
            ])
            at q
      quiet_at (suc (suc i)) s at = cc

      shard_at :
          (i : ℕ) (s : RwLock (ℕ × List (ℕ × (ℕ × V))))
          → get_elem? (world a b v w).shards i ≡ some s
          → IsShard numbers table 1 63 i s.data_ptr
      shard_at zero s at =
          subst
            (λ (o : Option (RwLock (ℕ × List (ℕ × (ℕ × V))))). elim o [
              | none ↦ Unit {0}
              | some r ↦ IsShard numbers table 1 63 0 r.data_ptr
            ])
            at (record { filed = (refl, tt); placed = (refl, tt); once = λ q. ground arith })
      shard_at (suc zero) s at =
          subst
            (λ (o : Option (RwLock (ℕ × List (ℕ × (ℕ × V))))). elim o [
              | none ↦ Unit {0}
              | some r ↦ IsShard numbers table 1 63 1 r.data_ptr
            ])
            at (record { filed = (refl, tt); placed = (refl, tt); once = λ q. ground arith })
      shard_at (suc (suc i)) s at = cc
