-- ===== src/Concurrent/Guards.antt =====
-- The guards that threads hold, counted, and the words of the locks.
use dashmap.Base.{
  ℕ, ◌+◌, ◌*◌, ◌≤◌, ◌≡◌, ◌≢◌, ◌⊎◌, refl, sym, ap, inl, inr, some, List, [], ◌∷◌, map, length,
  get_elem?, set, total, total-set, total-le, le-total, add-le-total, to_nat, ◌==◌, if◌then◌else◌,
  get_elem?-set_cases, arith, ◌∙◌, subst, ℕ_discrete,
}
use dashmap.Lock.Word.{one_writer}
use dashmap.Map.{RwLock, DashMap, put_shard}
use dashmap.Concurrent.{Call, is_exclusive, Thread, outside, inside, leaving}

module _ {ℓ} {T K V : Type ℓ} where
  -- how many guards for writes, and for reads, of shard `i` a thread has
  abbrev pub writes : ℕ → Thread T K V → ℕ
  writes i (outside cs rs) = 0
  writes i (inside c idx t cs rs) = if is_exclusive c then to_nat (idx == i) else 0
  writes i (leaving c idx cs rs) = if is_exclusive c then to_nat (idx == i) else 0

  abbrev pub reads : ℕ → Thread T K V → ℕ
  reads i (outside cs rs) = 0
  reads i (inside c idx t cs rs) = if is_exclusive c then 0 else to_nat (idx == i)
  reads i (leaving c idx cs rs) = if is_exclusive c then 0 else to_nat (idx == i)

  unfoldable pub writers : ℕ → List (Thread T K V) → ℕ
  writers i ws = total (writes i) ws

  unfoldable pub readers : ℕ → List (Thread T K V) → ℕ
  readers i ws = total (reads i) ws

  module _ (ws : List (Thread T K V)) (j : ℕ) (w' : Thread T K V) {w : Thread T K V}
      (at : get_elem? ws j ≡ some w) where
    pub writers-set : (i : ℕ) → writers i (set ws j w') + writes i w ≡ writers i ws + writes i w'
    unfolding writers
    writers-set i = total-set (writes i) ws j w' at

    pub readers-set : (i : ℕ) → readers i (set ws j w') + reads i w ≡ readers i ws + reads i w'
    unfolding readers
    readers-set i = total-set (reads i) ws j w' at

  reads-le : (i : ℕ) (w : Thread T K V) → reads i w ≤ 1
  reads-le i (outside cs rs) = omega arith
  reads-le i (inside c idx t cs rs) = ground arith
  reads-le i (leaving c idx cs rs) = ground arith

  pub readers-le-length : (i : ℕ) (ws : List (Thread T K V)) → readers i ws ≤ length ws
  unfolding readers
  readers-le-length i ws = total-le (reads i) (reads-le i) ws

  module _ (ws : List (Thread T K V)) (j : ℕ) {w : Thread T K V}
      (at : get_elem? ws j ≡ some w) where
    pub le-writers : (i : ℕ) → writes i w ≤ writers i ws
    unfolding writers
    le-writers i = le-total (writes i) ws j at

    pub le-readers : (i : ℕ) → reads i w ≤ readers i ws
    unfolding readers
    le-readers i = le-total (reads i) ws j at

    pub add-le-writers :
        (n i : ℕ) (u : Thread T K V)
        → get_elem? ws n ≡ some u
        → j ≢ n
        → writes i w + writes i u ≤ writers i ws
    unfolding writers
    add-le-writers n i u at' ne = add-le-total (writes i) ws j n at at' ne

module _ {ℓ} (T : Type ℓ) {K V : Type ℓ} where
  pub none-start :
      (i : ℕ) (programs : List (List (Call K V)))
      → (writers {T = T} i (map (λ cs. outside cs []) programs) ≡ 0)
        × (readers {T = T} i (map (λ cs. outside cs []) programs) ≡ 0)
  unfolding writers readers total
  none-start i [] = (refl, refl)
  none-start i (cs ∷ programs) =
      let (w, r) = none-start i programs in (omega (arith, w), omega (arith, r))

module _ {ℓ} {T K V : Type ℓ} where
  -- Shard `i` has no guard for writes, or one and none for reads.
  abbrev pub Alone : ℕ → List (Thread T K V) → Type 0
  Alone i ws = (writers i ws ≡ 0) ⊎ ((writers i ws ≡ 1) × (readers i ws ≡ 0))

module _ {ℓ} {T S K V : Type ℓ} where
  -- The word of each lock is what the guards say, and a guard for writes is alone.
  pub record Words (m : DashMap T S) (ws : List (Thread T K V)) : Type ℓ where
    pub raws :
        (i : ℕ) (s : RwLock T)
        → get_elem? m.shards i ≡ some s
        → s.raw ≡ writers i ws * one_writer + 4 * readers i ws
    pub alone : (i : ℕ) → Alone i ws

  pub put_shard-Words :
      (m : DashMap T S) (ws ws' : List (Thread T K V)) (idx : ℕ) (s' : RwLock T)
      → Words m ws
      → s'.raw ≡ writers idx ws' * one_writer + 4 * readers idx ws'
      → Alone idx ws'
      → ((i : ℕ) → idx ≢ i → (writers i ws' ≡ writers i ws) × (readers i ws' ≡ readers i ws))
      → Words (put_shard m idx s') ws'
  put_shard-Words m ws ws' idx s' x word one same = record {
    raws = λ i s at. elim (get_elem?-set_cases m.shards idx i s' at) [
      | inl (here, e) ↦
          sym (ap (λ r. r.raw) e)
          ∙ word
          ∙ ap (λ (n : ℕ). writers n ws' * one_writer + 4 * readers n ws') here
      | inr (away, there) ↦ let (w, r) = same i away in omega (arith, w, r, x.raws i s there)
    ];
    alone = λ i. elim (ℕ_discrete idx i) [
      | yes e ↦ subst (λ (n : ℕ). Alone n ws') e one
      | no away ↦ let (w, r) = same i away in rw (w, r) (x.alone i)
    ];
  }
