-- ===== src/Lock/Invariant.antt =====
-- The invariant of a lock and its threads: true at the start and kept by every step.
mod Defs
mod Moves
pub use Defs.*
use Moves.{Keeps, advance-Kept}
use dashmap.Base.{
  ℕ, ◌+◌, ◌-◌, ◌^◌, ◌<◌, ◌≤◌, ◌≡◌, refl, ◌≢◌, sym, inl, inr, some, none, List, length, get_elem?,
  set, subst, arith, total, total-set, le-total, add-le-total, total-replicate, total-le,
  length-set, length-replicate, get_elem?-set_cases, eq_of_get_elem?-replicate, Option-cases,
  replicate, ℕ_discrete, ◌∙◌,
}
use dashmap.Lock.Thread.{Choice, Pc, idle, advance}
use dashmap.Lock.System.{System, start, step, Reach, initial, later}

pub reads-le : (pc : Pc) → reads pc ≤ 1
reads-le pc = ground arith

writes-le : (pc : Pc) → writes pc ≤ 1
writes-le pc = ground arith

-- The flags that others set do not disturb a writer, and nobody else looks at the word.
IsSane-Grows :
    (n word word' : ℕ) (pc : Pc)
    → (writes pc ≡ 1 → Grows word word')
    → IsSane n word pc
    → IsSane n word' pc
IsSane-Grows n word word' Pc.ux_slow g h = ground (arith, g refl)
IsSane-Grows n word word' (Pc.ux_swap state parked) g h = ground (arith, g refl)
IsSane-Grows n word word' pc g h = h

module _ (n : ℕ) (s : System) (i : ℕ) (c : Choice) (pc : Pc) (inv : Inv n s)
    (at : get_elem? s.threads i ≡ some pc) where
  abbrev others_write : ℕ
  others_write = total writes s.threads - writes pc

  abbrev others_read : ℕ
  others_read = total reads s.threads - reads pc

  abbrev word' : ℕ
  word' = (advance c s.word pc).0

  abbrev pc' : Pc
  pc' = (advance c s.word pc).1

  kept : Keeps n others_write others_read s.word word' pc'
  kept =
      advance-Kept n others_write others_read s.word c inv.few
        (omega (arith, total-le reads reads-le s.threads, inv.size)) inv.fits pc
        (subst (λ (x : ℕ). Counts x (reads pc + others_read) s.word)
          (omega (arith, le-total writes s.threads i at))
          (subst (λ (r : ℕ). Counts (total writes s.threads) r s.word)
            (omega (arith, le-total reads s.threads i at)) inv.counts))
        (inv.sane i pc at)

  -- another thread that holds the lock exclusively
  other_writer :
      (j : ℕ) (pc_j : Pc)
      → get_elem? s.threads j ≡ some pc_j
      → i ≢ j
      → writes pc_j ≡ 1
      → others_write ≡ 1
  other_writer j pc_j at_j ne w =
      ground (arith, add-le-total writes s.threads i j at at_j ne, inv.counts)

  moved-Inv : Inv n (record { word = word'; threads = set s.threads i pc' })
  moved-Inv = record {
    size = length-set s.threads i pc' ∙ inv.size;
    few = inv.few;
    fits = kept.fits;
    counts =
        subst (λ (x : ℕ). Counts x (total reads (set s.threads i pc')) word')
          (omega (arith, total-set writes s.threads i pc' at, le-total writes s.threads i at))
          (subst (λ (r : ℕ). Counts (writes pc' + others_write) r word')
            (omega (arith, total-set reads s.threads i pc' at, le-total reads s.threads i at))
            kept.counts);
    sane = λ j pc_j at_j. elim (get_elem?-set_cases s.threads i j pc' at_j) [
      | inl (_, e) ↦ subst (IsSane n word') e kept.sane
      | inr (ne, there) ↦
          IsSane-Grows n s.word word' pc_j (λ w. kept.grows (other_writer j pc_j there ne w))
            (inv.sane j pc_j there)
    ];
  }

-- Every step keeps the invariant.
pub step-Inv : (n : ℕ) (s : System) (i : ℕ) (c : Choice) → Inv n s → Inv n (step i c s)
unfolding step
step-Inv n s i c inv = elim (Option-cases (get_elem? s.threads i)) [
  | inl nobody ↦ rw (nobody, step) inv
  | inr (pc, at) ↦ rw (at, step) (moved-Inv n s i c pc inv at)
]

start-Inv : (n : ℕ) → n < all_ones - 1 → Inv n (start n)
start-Inv n few = record {
  size = length-replicate n idle;
  few = few;
  fits = omega arith;
  counts = inl (total-replicate writes n idle refl, sym (total-replicate reads n idle refl));
  sane = λ i pc at. subst (IsSane n 0) (eq_of_get_elem?-replicate n i idle at) tt;
}

pub Reach-Inv : {n : ℕ} {s : System} → n < all_ones - 1 → Reach n s → Inv n s
Reach-Inv {n} few initial = start-Inv n few
Reach-Inv {n} few (later {s = s} i c r) = step-Inv n s i c (Reach-Inv few r)
