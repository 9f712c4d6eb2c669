-- ===== src/Lock/Simulation.antt =====
-- The calls of one caller that nobody disturbs, among all callers.
use dashmap.Base.{
  ℕ, zero, suc, ◌+◌, ◌-◌, ◌%◌, ◌^◌, ◌<◌, ◌≡◌, refl, sym, ap, subst, none, some, get_elem?, set,
  get_elem?-set_self, set-set, set_same, lt_of_get_elem?, if_intro, if◌then◌else◌, ◌==◌, total,
  arith, total-le, ltb,
}
use dashmap.Base.Bits.{and_high_mask, and_one, or_one}
use dashmap.Base.Outcome.{done, blocked}
use dashmap.Lock.Word.{one_writer}
use dashmap.Lock.Thread.{Choice, Call, Pc, advance}
use dashmap.Lock.System.{System, Reach, later, step}
use dashmap.Lock.Invariant.{reads, writes, all_ones, reads-le, Reach-Inv}
use dashmap.Lock.Alone.{
  calling, settled, settle, finish, lock_exclusive, lock_shared, try_lock_exclusive,
  try_lock_shared,
}
use dashmap.Lock.Quiet.{
  IsQuiet, lock_exclusive_lem, lock_shared_lem, try_lock_exclusive_lem, try_lock_shared_lem,
}

-- The system after thread `i` has come to `pc` with the word.
abbrev pub moved : System → ℕ → ℕ × Pc → System
moved s i x = record { word = x.0; threads = set s.threads i x.1 }

step-moved :
    (i : ℕ) (c : Choice) (s : System) (pc : Pc)
    → get_elem? s.threads i ≡ some pc
    → step i c s ≡ moved s i (advance c s.word pc)
unfolding step
step-moved i c s pc at = rw (step, at)

settle-Reach :
    {n : ℕ} (k : ℕ) (c : Choice) (i : ℕ) (s : System) (pc : Pc)
    → Reach n s
    → get_elem? s.threads i ≡ some pc
    → Reach n (moved s i (settle k c (s.word, pc)))
unfolding settle
settle-Reach zero c i s pc r at =
    subst (Reach _)
      (ap (λ ts. record { word = s.word; threads = ts }) (sym (set_same s.threads i pc at))) r
settle-Reach {n} (suc k) c i s pc r at =
    if_intro (λ x. Reach n (moved s i x)) (settled pc)
      (λ _.
        subst (Reach n)
          (ap (λ ts. record { word = s.word; threads = ts }) (sym (set_same s.threads i pc at))) r)
      (λ _.
        let next = advance c s.word pc in
        let s' = moved s i next in
        let there = get_elem?-set_self s.threads i next.1 (lt_of_get_elem? s.threads i at) in
        let r' : Reach n s' = subst (Reach n) (step-moved i c s pc at) (later i c r) in
        let x = settle k c next in
        subst (Reach n)
          (ap (λ ts. record { word = x.0; threads = ts }) (set-set s.threads i next.1 x.1))
          (settle-Reach k c i s' next.1 r' there))

-- An idle thread that nobody disturbs comes to where its call returns or sleeps.
call-Reach :
    {n : ℕ} {s : System} (call : Call) (i : ℕ)
    → Reach n s
    → get_elem? s.threads i ≡ some Pc.idle
    → Reach n (moved s i (finish (calling call) (advance (calling call) s.word Pc.idle)))
unfolding finish
call-Reach {n} {s} call i r at =
    let c = calling call in
    let first = advance c s.word Pc.idle in
    let s' = moved s i first in
    let there = get_elem?-set_self s.threads i first.1 (lt_of_get_elem? s.threads i at) in
    let r' : Reach n s' = subst (Reach n) (step-moved i c s Pc.idle at) (later i c r) in
    let x = settle 5 c first in
    subst (Reach n)
      (ap (λ ts. record { word = x.0; threads = ts }) (set-set s.threads i first.1 x.1))
      (settle-Reach 5 c i s' first.1 r' there)

-- Where the calls end that take the lock.
exclusive_end :
    finish (calling Call.lock_exclusive) (advance (calling Call.lock_exclusive) 0 Pc.idle)
    ≡ (one_writer, Pc.writer)
unfolding finish
exclusive_end = refl

shared_end :
    (word : ℕ)
    → IsQuiet word
    → word + 8 < 2 ^ 64
    → finish (calling Call.lock_shared) (advance (calling Call.lock_shared) word Pc.idle)
      ≡ (word + 4, Pc.reader)
unfolding finish
shared_end word quiet room = ground (
  arith,
  and_high_mask word quiet.fits,
  and_one word,
  or_one word,
  and_one (word + 1),
  and_high_mask (word + 4) (omega arith),
)

-- The calls of an idle thread that nobody disturbs, in a state that the callers reached: what they
-- answer, from who holds the lock, and that the state with this answer can be reached.
pub record Undisturbed (n : ℕ) (s : System) (i : ℕ) : Type 0 where
  pub exclusive :
      lock_exclusive s.word
      ≡ (if total writes s.threads + total reads s.threads == 0 then done one_writer else blocked)
  pub shared :
      lock_shared s.word ≡ (if total writes s.threads == 0 then done (s.word + 4) else blocked)
  pub try_exclusive :
      try_lock_exclusive s.word
      ≡ (if total writes s.threads + total reads s.threads == 0 then some one_writer else none)
  pub try_shared :
      try_lock_shared s.word ≡ (if total writes s.threads == 0 then some (s.word + 4) else none)
  pub exclusive-Reach : Reach n (
      if total writes s.threads + total reads s.threads == 0
      then moved s i (one_writer, Pc.writer)
      else s)
  pub shared-Reach :
      Reach n (if total writes s.threads == 0 then moved s i (s.word + 4, Pc.reader) else s)

-- In every state that callers fewer than 2 ^ 62 - 2 can reach and in which no flag is set, the
-- undisturbed calls that the map is modelled with do what the threads that hold the lock allow:
-- `lock_exclusive` returns a writer's word, and `try_lock_exclusive` succeeds with it, exactly if no
-- thread holds the lock; `lock_shared` returns the word of one more reader, and `try_lock_shared`
-- succeeds with it, exactly if no thread writes; else the first and third wait and the others fail.
-- Where a call of an idle thread returns, the callers can reach the state with its word in which
-- that thread is the writer, or a reader, and no other has moved.
pub undisturbed_lem :
    {n : ℕ} {s : System} (i : ℕ)
    → n < all_ones - 1
    → Reach n s
    → s.word % 4 ≡ 0
    → get_elem? s.threads i ≡ some Pc.idle
    → Undisturbed n s i
undisturbed_lem {n} {s} i few r flags at =
    let inv = Reach-Inv few r in
    let quiet : IsQuiet s.word = record { fits = inv.fits; no_flags = flags } in
    let readers = total-le reads reads-le s.threads in
    let few_readers : total reads s.threads < all_ones - 1 = omega (arith, inv.size, readers) in
    let free : (s.word == 0) ≡ (total writes s.threads + total reads s.threads == 0) =
      ground (arith, inv.counts) in
    let room : ltb (s.word + 8) (2 ^ 64) ≡ (total writes s.threads == 0) =
      ground (arith, inv.counts) in
    record {
      exclusive = rw (lock_exclusive_lem s.word quiet, free);
      shared = rw (lock_shared_lem s.word quiet) (ground (arith, inv.counts));
      try_exclusive = rw (try_lock_exclusive_lem s.word quiet, free);
      try_shared = rw (try_lock_shared_lem s.word quiet, room);
      exclusive-Reach =
          if_intro (λ x. Reach n x) (total writes s.threads + total reads s.threads == 0)
            (λ nobody.
              let none_held : s.word ≡ 0 = ground (arith, inv.counts) in
              subst (λ x. Reach n (moved s i x)) (rw none_held exclusive_end)
                (call-Reach Call.lock_exclusive i r at))
            (λ _. r);
      shared-Reach =
          if_intro (λ x. Reach n x) (total writes s.threads == 0)
            (λ no_writer.
              subst (λ x. Reach n (moved s i x))
                (shared_end s.word quiet (ground (arith, inv.counts)))
                (call-Reach Call.lock_shared i r at))
            (λ _. r);
    }
