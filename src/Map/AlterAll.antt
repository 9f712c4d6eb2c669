-- ===== src/Map/AlterAll.antt =====
-- What `alter_all` leaves.
use dashmap.Base.{
  ℕ, zero, suc, ◌-◌, ◌≤◌, ◌<◌, ◌≡◌, refl, sym, ◌∙◌, ap, inl, inr, Option, none, some, length, All,
  All-get_elem?, total, get_elem?, set, set_same, map_from_step, lt_of_get_elem?, length-set,
  Option-cases, arith,
}
use dashmap.Base.Outcome.{done, ◌>>=◌}
use dashmap.Key.{Key}
use dashmap.Table.{HashTable}
use dashmap.Map.{RwLock, DashMap, put_shard, shard_at}
use dashmap.Map.State.{IsValid, IsShard}
use dashmap.Map.Guards.{shard_at-put_shard}
use dashmap.Map.Loops.{
  changed, everywhere, everywhere-IsValid, contents-everywhere, word-everywhere,
}
use dashmap.Map.Retaining.{Mapped}
use dashmap.Map.IterMut.{next_mut, next_mut_shard, alter_all_from, alter_all}
use dashmap.Map.Altered.{altered_from, altered, altered_pair, altered-IsShard, lookup-altered}
use dashmap.Map.Altering.{taken, work, IsFree, Holds, finished, drop_lem, next_mut_shard_lem}
use dashmap.Map.Turns.{past, Main, write_turn, after}

module _ {ℓ} {K V S : Type ℓ} (H : HashTable (K × V)) (f : K → V → V) where
  open H use {T, slots}

  -- A turn that has to look for the next shard.
  fresh :
      (n : ℕ)
      → Main S H f n
      → (m : DashMap T S) (i : ℕ) (current : Option (ℕ × ℕ)) (m' : DashMap T S) → IsFree H f m
      → Holds H f m i current m'
      → i ≤ length m.shards
      → work H i m.shards < suc n
      → next_mut H (record { shards = i; current = current }) m'
        ≡ next_mut_shard H (length m.shards - i) (record { shards = i; current = current }) m'
      → alter_all_from H (suc n) (record { shards = i; current = current }) f m'
        ≡ done (finished H f i m)
  unfolding alter_all_from altered_from
  fresh n later m i current m' free holds within small looks =
      elim (next_mut_shard_lem H f (length m.shards - i) m i current m' free holds (omega arith)) [
        | inl o ↦
            rw (alter_all_from, looks, o.runs, ◌>>=◌)
              (drop_lem H f m o.it'.shards o.it'.current o.m'' free o.holds ∙ ap done (sym o.same))
        | inr x ↦
            let t = x.s.data_ptr in
            let some_entries = lt_of_get_elem? (slots t) 0 x.first in
            let inside = lt_of_get_elem? m.shards x.i' x.there in
            let whole : length (slots t) - 0 ≡ length (slots t) = omega arith in
            rw
              (
                alter_all_from,
                looks,
                x.runs,
                ◌>>=◌,
                write_turn H f m x.i' 0 x.s x.e x.there x.first,
              )
              (after H f n later m x.i' 0 (suc x.i') x.s x.e free x.there (omega arith)
                  (omega arith) x.first (omega (arith, x.less))
                ∙ ap
                    (λ (q : ℕ). done (
                      finished H f (suc x.i')
                        (put_shard m x.i' (record { raw = 0; data_ptr = altered_from H f q 0 t }))))
                    whole
                ∙ ap (λ l. done (record { shift = m.shift; shards = l; hasher = m.hasher }))
                    (sym (map_from_step x.i' (changed (altered H f)) m.shards x.there))
                ∙ ap done (sym x.same))
      ]

  -- The current shard has nothing left: `next` looks for another.
  looks :
      (m : DashMap T S) (i : ℕ) (current : Option (ℕ × ℕ)) (m' : DashMap T S)
      → (h : Holds H f m i current m')
      → (elim current as (λ _. Type ℓ) [
        | none ↦ Unit
        | some (j, p) ↦
            (s : RwLock T) × (get_elem? m.shards j ≡ some s)
            × (m' ≡ put_shard m j (taken s))
            × (get_elem? (slots s.data_ptr) p ≡ none)
      ])
      → next_mut H (record { shards = i; current = current }) m'
        ≡ next_mut_shard H (length m.shards - i) (record { shards = i; current = current }) m'
  unfolding next_mut
  looks m i none m' e _ =
      ap (λ x. next_mut_shard H (length x.shards - i) (record { shards = i; current = none }) m') e
  looks m i (some (j, p)) m' h (s, at, e, over) =
      let many : length m'.shards ≡ length m.shards =
        ap (λ x. length x.shards) e ∙ length-set m.shards j (taken s) in
      let there = shard_at-put_shard m j s at (taken s) in
      rw (ap (λ x. shard_at x j) e ∙ there, ◌>>=◌, over)
        (ap (λ (q : ℕ). next_mut_shard H (q - i) (record { shards = i; current = some (j, p) }) m')
          many)

  main : (n : ℕ) → Main S H f n
  unfolding alter_all_from next_mut altered_from
  main zero m i current m' free h within small = absurd (omega arith)
  main (suc n) m i none m' free e within small =
      fresh n (main n) m i none m' free e within (omega arith) (looks m i none m' e tt)
  main (suc n) m i (some (j, p)) m' free (s, at, below, e) within small =
      elim (Option-cases (get_elem? (slots s.data_ptr) p)) [
        | inl over ↦
            let none_left : 0 ≡ length (slots s.data_ptr) - p =
              omega (arith, past (slots s.data_ptr) p over) in
            let same : m ≡ put_shard m j (record { raw = 0; data_ptr = s.data_ptr }) =
              ap (λ l. record { shift = m.shift; shards = l; hasher = m.hasher })
                (sym (set_same m.shards j s at)
                  ∙ ap (λ (r : ℕ). set m.shards j (record { raw = r; data_ptr = s.data_ptr }))
                      (free j s at)) in
            fresh n (main n) m i (some (j, p)) m' free (s, at, below, e) within (omega arith)
              (looks m i (some (j, p)) m' (s, at, below, e) (s, at, e, over))
            ∙ ap (λ x. done (finished H f i x)) same
            ∙ ap
                (λ (q : ℕ). done (
                  finished H f i (
                    put_shard m j
                      (record { raw = 0; data_ptr = altered_from H f q p s.data_ptr }))))
                none_left
        | inr (x, here) ↦
            rw
              (
                alter_all_from,
                next_mut,
                e,
                shard_at-put_shard m j s at (taken s),
                ◌>>=◌,
                here,
                e,
                write_turn H f m j p s x at here,
              )
              (after H f n (main n) m j p i s x free at below within here small)
      ]

module _ {ℓ} {K V S : Type ℓ} (key : Key K S) (H : HashTable (K × V)) (m : DashMap H.T S)
    (valid : IsValid key H m) (free : All (λ s. s.raw ≡ 0) m.shards) where
  open H use {T, slots}

  pub alter_all_run :
      (f : K → V → V) → alter_all H m f ≡ done (everywhere key H m valid (altered H f))
  unfolding alter_all
  alter_all_run f =
      main H f (suc (total (λ s. length (slots s.data_ptr)) m.shards)) m 0 none m
        (λ i s at. All-get_elem? (λ (s : RwLock T). s.raw ≡ 0) m.shards i free at) refl
        (omega arith) (omega arith)

  -- `alter_all` on a valid map that nobody holds a lock of returns, having put what the closure
  -- makes of each pair in the place of its value, once for each pair; the keys are the same, and
  -- the map is valid with every lock free.
  pub alter_all_lem :
      (f : K → V → V)
      → (m' : DashMap T S) × (alter_all H m f ≡ done m')
        × Mapped key H m valid free (altered_pair key H f) m'
  alter_all_lem f =
      let step : T → T = altered H f in
      let ok = altered-IsShard key H f m.hasher m.shift in
      let reads = λ (i : ℕ) (t : T) (q : K) (_ : IsShard key H m.hasher m.shift i t).
        lookup-altered key H f t q in
      let g = altered_pair key H f in
      (
        everywhere key H m valid step,
        alter_all_run f,
        record {
          valid' = everywhere-IsValid key H m valid step g ok reads;
          reads = contents-everywhere key H m valid step g ok reads;
          words = word-everywhere key H m valid step g ok reads;
        },
      )
