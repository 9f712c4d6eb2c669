-- ===== src/Map/Fresh.antt =====
-- What the constructors make.
use dashmap.Base.{
  ℕ, zero, suc, ◌+◌, ◌-◌, ◌*◌, ◌^◌, ◌≤◌, ◌<◌, ◌≡◌, ◌⊎◌, inl, inr, le→ltb, refl, ◌∙◌, subst, false,
  none, some, All, length, total, replicate, length-replicate, eq_of_get_elem?-replicate,
  total-replicate, lt→ltb, arith,
}
use dashmap.Base.Outcome.{done, panicked, ◌>>=◌}
use native.Mathlib.Nat.{pow-suc, pow-le-pow_right}
use dashmap.Base.Bits.{pow-pos}
use dashmap.Key.{Key}
use dashmap.Lock.Quiet.{IsQuiet}
use dashmap.Shards
use dashmap.Shards.Bounds.{shard_capacity_lem, power_lem, default_shard_amount_lem}
use dashmap.Table.{HashTable}
use dashmap.Table.Entries.{lookup, count}
use dashmap.Map.{RwLock, DashMap, with_capacity_and_hasher_and_shard_amount}
use dashmap.Map.Making.{with_capacity_and_hasher}
use dashmap.Map.State.{IsValid, IsShard, contents, entries, located}
use dashmap.Map.Sizes.{room}

module _ {ℓ} {K V S : Type ℓ} (key : Key K S) (H : HashTable (K × V)) where
  open H use {T, slots}

  -- A valid map with no entry and no lock held, with room for `capacity` entries.
  pub record IsFresh (capacity : ℕ) (m : DashMap T S) : Type ℓ where
    pub valid : IsValid key H m
    pub nothing : (q : K) → contents key H m q ≡ none
    pub no_entries : entries key H m ≡ 0
    pub free : All (λ s. s.raw ≡ 0) m.shards
    pub spacious : capacity ≤ room key H m

  -- the map of a constructor
  abbrev made : ℕ → S → ℕ → DashMap T S
  made p hasher cps = record {
    shift = 64 - p;
    shards = replicate (2 ^ p) (record { raw = 0; data_ptr = H.with_capacity cps });
    hasher = hasher;
  }

  All-replicate {κ} : {A : Type ℓ} (P : A → Type κ) (n : ℕ) (a : A) → P a → All P (replicate n a)
  All-replicate P zero a h = tt
  All-replicate P (suc n) a h = (h, All-replicate P n a h)

  total-replicate-le :
      {A : Type ℓ} (w : A → ℕ) (n c : ℕ) (a : A) → c ≤ w a → c * n ≤ total w (replicate n a)
  unfolding total
  total-replicate-le w zero c a h = omega arith
  total-replicate-le w (suc n) c a h =
      let e : c * suc n ≡ c + c * n = omega arith in omega (arith, total-replicate-le w n c a h)

  made-IsFresh :
      (p cps capacity : ℕ) (hasher : S)
      → 1 ≤ p
      → p ≤ 63
      → capacity ≤ cps * 2 ^ p
      → IsFresh capacity (made p hasher cps)
  unfolding contents entries room lookup count
  made-IsFresh p cps capacity hasher low high enough =
      let empty : RwLock T = record { raw = 0; data_ptr = H.with_capacity cps } in
      let valid : IsValid key H (made p hasher cps) = record {
        bits = p;
        few = high;
        some_shards = low;
        shifts = refl;
        width = length-replicate (2 ^ p) empty;
        quiet = λ i s at.
            subst (λ (r : RwLock T). IsQuiet r.raw) (eq_of_get_elem?-replicate (2 ^ p) i empty at)
              (record { fits = omega arith; no_flags = refl });
        shard = λ i s at.
            subst (λ (r : RwLock T). IsShard key H hasher (64 - p) i r.data_ptr)
              (eq_of_get_elem?-replicate (2 ^ p) i empty at)
              (record {
                filed = rw (H.slots-with_capacity cps) tt;
                placed = rw (H.slots-with_capacity cps) tt;
                once = λ q. rw (H.slots-with_capacity cps) (omega arith);
              });
      } in
      record {
        valid = valid;
        nothing = λ q.
            let l = located key H (made p hasher cps) q valid in
            l.holds
            ∙ rw (← eq_of_get_elem?-replicate (2 ^ p) _ empty l.at, H.slots-with_capacity cps);
        no_entries =
            total-replicate (λ (s : RwLock T). length (slots s.data_ptr)) (2 ^ p) empty
              (rw (H.slots-with_capacity cps));
        free = All-replicate (λ s. s.raw ≡ 0) (2 ^ p) empty refl;
        spacious = omega (
          arith,
          enough,
          total-replicate-le (λ (s : RwLock T). H.capacity s.data_ptr) (2 ^ p) cps empty
              (H.le-capacity-with_capacity cps),
        );
      }

  two_le : (p : ℕ) → 1 ≤ p → 2 ≤ 2 ^ p
  two_le zero h = absurd (omega arith)
  two_le (suc p) h = rw (pow-suc 2 p) (omega (arith, pow-pos p))

  -- `with_capacity_and_hasher_and_shard_amount`, for a number of shards that is a power of two from
  -- 2 to 2 ^ 63 and a capacity that does not overflow when it is rounded up, gives a valid map with
  -- that many shards, with no entry and no lock held, and with room for the capacity that was asked
  -- for.
  pub make_lem :
      (p capacity : ℕ) (hasher : S)
      → 1 ≤ p
      → p ≤ 63
      → capacity + (2 ^ p - 1) < 2 ^ 64
      → (m : DashMap T S) × (with_capacity_and_hasher_and_shard_amount key H capacity hasher (2 ^ p)
          ≡ done m)
        × (length m.shards ≡ 2 ^ p)
        × IsFresh capacity m
  unfolding with_capacity_and_hasher_and_shard_amount
  make_lem p capacity hasher low high small =
      let (cps, run, enough, _) = shard_capacity_lem p capacity (omega arith) small in
      let (power, log) = power_lem p (omega arith) in
      (
        made p hasher cps,
        rw (lt→ltb 1 (2 ^ p) (two_le p low), power, run, log, ◌>>=◌),
        length-replicate (2 ^ p) _,
        made-IsFresh p cps capacity hasher low high enough,
      )

  -- It panics where the number of shards is less than two or no power of two, whatever the
  -- capacity.
  pub make_panics :
      (capacity shard_amount : ℕ) (hasher : S)
      → (shard_amount ≤ 1) ⊎ (Shards.is_power_of_two shard_amount ≡ false)
      → with_capacity_and_hasher_and_shard_amount key H capacity hasher shard_amount ≡ panicked
  unfolding with_capacity_and_hasher_and_shard_amount
  make_panics capacity shard_amount hasher (inl small) = rw (le→ltb 1 shard_amount small)
  make_panics capacity shard_amount hasher (inr odd) = rw odd (ground arith)

  zero_or_more : (p : ℕ) → 4 ≤ 2 ^ p → 1 ≤ p
  zero_or_more zero h = absurd (omega arith)
  zero_or_more (suc p) h = omega arith

  -- `with_capacity_and_hasher`, where the number of processors is known
  pub with_capacity_and_hasher_lem :
      (parallelism capacity : ℕ) (hasher : S)
      → 1 ≤ parallelism
      → parallelism ≤ 2 ^ 61
      → capacity ≤ 2 ^ 63
      → (m : DashMap T S) × (with_capacity_and_hasher key H (some parallelism) capacity hasher
          ≡ done m)
        × IsFresh capacity m
  unfolding with_capacity_and_hasher
  with_capacity_and_hasher_lem parallelism capacity hasher low high small =
      let (p, amount, wide, bounded) = default_shard_amount_lem parallelism low high in
      let most = pow-le-pow_right {n = 2} (omega arith) {i = p} {j = 63} (omega arith) in
      let (m, run, _, fresh) =
        make_lem p capacity hasher (zero_or_more p (omega arith)) (omega arith)
          (omega (arith, most)) in
      (m, rw (amount, ◌>>=◌) run, fresh)
