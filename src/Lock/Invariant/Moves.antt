-- ===== src/Lock/Invariant/Moves.antt =====
-- One step of one thread, seen beside `xo` other writers and `ro` other readers.
use dashmap.Base.{
  ℕ, ◌+◌, ◌-◌, ◌%◌, ◌^◌, ◌≤◌, ◌<◌, ◌≡◌, refl, sym, ap, ◌∙◌, ◌≢◌, inl, inr, arith, true, false,
  bit_and, bit_or, ltb, ◌==◌, if_intro, Bool-cases, not, ◌&&◌,
}
use dashmap.Base.Bits.{and_three, and_six, or_one, or_two, and_high_mask, or_high_mask, or_nothing}
use dashmap.Lock.Word.{one_writer, one_reader, readers_parked, writers_parked}
use dashmap.Lock.Thread.{
  Call, Caller, Choice, Pc, advance, exclusive_loop, begin, exchange_weak, shared_fast, after_fast,
  try_shared_loop, shared_loop, unlock_slow, unlock_swap, leave_writer, leave_reader,
  exclusive_validate, shared_validate,
}
use dashmap.Lock.Invariant.Defs.{reads, writes, Counts, IsPast, IsFlag, IsSane, Grows, all_ones}

-- What a step to `word'` and `pc'` must establish.
pub record Keeps (n xo ro word word' : ℕ) (pc' : Pc) : Type 0 where
  pub fits : word' < 2 ^ 64
  pub counts : Counts (writes pc' + xo) (reads pc' + ro) word'
  pub sane : IsSane n word' pc'
  pub grows : xo ≡ 1 → Grows word word'

or_flag :
    (state aw : ℕ)
    → IsFlag aw
    → state < 2 ^ 64
    → bit_or (bit_or state one_writer) aw ≡ 2 ^ 64 - 4 + bit_or (state % 4) aw
or_flag state aw (inl e) p = rw e (
    or_nothing (bit_or state one_writer)
    ∙ or_high_mask state p
    ∙ ap (λ (t : ℕ). 2 ^ 64 - 4 + t) (sym (or_nothing (state % 4))))
or_flag state aw (inr e) p =
    rw e (ground (arith, or_high_mask state p, or_two (2 ^ 64 - 4 + state % 4), or_two (state % 4)))

module _ (n xo ro word : ℕ) (c : Choice) (few : n < all_ones - 1) (room : ro ≤ n)
    (fits : word < 2 ^ 64) where
  abbrev Kept : ℕ × Pc → Type 0
  Kept next = Keeps n xo ro word next.0 next.1

  exchange-Kept :
      (state new_state : ℕ) (won lost : Pc)
      → (word ≡ state → Kept (new_state, won))
      → Kept (word, lost)
      → Kept (exchange_weak c word state new_state won lost)
  unfolding exchange_weak
  exchange-Kept state new_state won lost h k =
      if_intro Kept (word == state && not c.spurious) (λ e. h (ground arith)) (λ _. k)

  -- A step that leaves the word alone.
  stay :
      (pc' : Pc)
      → Counts (writes pc' + xo) (reads pc' + ro) word
      → IsSane n word pc'
      → Kept (word, pc')
  stay pc' h k = record { fits = fits; counts = h; sane = k; grows = λ _. inl refl }

  past : Counts xo ro word → IsPast n word
  past h = ground arith

  exclusive_loop-Kept :
      (aw state : ℕ)
      → Counts xo ro word
      → IsFlag aw
      → IsPast n state
      → Kept (exclusive_loop c word aw state)
  unfolding exclusive_loop
  exclusive_loop-Kept aw state h f p =
      let again : Kept (word, Pc.ex_loop aw word) = stay _ (ground arith) (f, past h) in
      if_intro Kept (bit_and state one_writer == 0)
        (λ free.
          exchange-Kept state _ _ _
            (λ e. rw (or_flag state aw f p.0) (
              ground
                (arith, and_high_mask state p.0, f, or_nothing (state % 4), or_two (state % 4))))
            again)
        (λ owned.
          if_intro Kept (bit_and state writers_parked == 0)
            (λ unset.
              if_intro Kept c.spins (λ _. again)
                (λ _.
                  exchange-Kept state _ _ _
                    (λ e. ground (arith, and_high_mask state p.0, or_two state)) again))
            (λ full. stay _ (ground arith) tt))

  after_fast-Kept : (caller : Caller) → Counts xo ro word → Kept (word, after_fast caller)
  unfolding after_fast
  after_fast-Kept Caller.trying h = stay _ (ground arith) tt
  after_fast-Kept Caller.locking h = stay _ (ground arith) tt

  -- One more reader, where no writer was.
  enter :
      (state : ℕ)
      → Counts xo ro word
      → (bit_and (state + one_reader) one_writer == one_writer) ≡ false
      → ltb (state + one_reader) (2 ^ 64) ≡ true
      → word ≡ state
      → Kept (state + one_reader, Pc.reader)
  enter state h free small e = ground (arith, and_high_mask (state + 4))

  shared_fast-Kept :
      (caller : Caller) (state : ℕ) → Counts xo ro word → Kept (shared_fast c word caller state)
  unfolding shared_fast
  shared_fast-Kept caller state h = elim (Bool-cases (ltb (state + one_reader) (2 ^ 64))) [
    | inr over ↦ rw (over, shared_fast) (after_fast-Kept caller h)
    | inl small ↦
        rw (small, shared_fast)
          (if_intro Kept (bit_and (state + one_reader) one_writer == one_writer)
            (λ _. after_fast-Kept caller h)
            (λ free.
              exchange-Kept state _ _ _ (enter state h free small) (after_fast-Kept caller h)))
  ]

  try_shared_loop-Kept : (state : ℕ) → Counts xo ro word → Kept (try_shared_loop c word state)
  unfolding try_shared_loop
  try_shared_loop-Kept state h = elim (Bool-cases (ltb (state + one_reader) (2 ^ 64))) [
    | inr over ↦ rw (over, try_shared_loop) (stay _ (ground arith) tt)
    | inl small ↦
        rw (small, try_shared_loop)
          (if_intro Kept (bit_and (state + one_reader) one_writer == one_writer)
            (λ _. stay _ (ground arith) tt)
            (λ free.
              exchange-Kept state _ _ _ (enter state h free small)
                (stay _ (ground arith) (past h))))
  ]

  shared_loop-Kept :
      (state : ℕ) → Counts xo ro word → IsPast n state → Kept (shared_loop c word state)
  unfolding shared_loop
  shared_loop-Kept state h p =
      let again : Kept (word, Pc.sh_loop word) = stay _ (ground arith) (past h) in
      elim (Bool-cases (ltb (state + one_reader) (2 ^ 64))) [
        | inl small ↦
            rw (small, shared_loop)
              (if_intro Kept (bit_and (state + one_reader) one_writer == one_writer)
                (λ full. absurd (ground (arith, and_high_mask (state + 4))))
                (λ free.
                  exchange-Kept state _ _ _ (enter state h free small) (stay _ (ground arith) tt)))
        | inr over ↦
            rw (over, shared_loop)
              (if_intro Kept (bit_and state readers_parked == 0)
                (λ unset.
                  if_intro Kept c.spins (λ _. again)
                    (λ _. exchange-Kept state _ _ _ (λ e. ground (arith, or_one state)) again))
                (λ _. stay _ (ground arith) tt))
      ]

  unlock_slow-Kept : Counts (1 + xo) ro word → word % 4 ≢ 0 → Kept (unlock_slow word)
  unfolding unlock_slow
  unlock_slow-Kept h k =
      if_intro Kept (bit_and word one_writer == one_writer && not (bit_and word 3 == 0))
        (λ good.
          if_intro Kept (bit_and word 3 == 3) (λ both. stay _ (ground arith) tt)
            (λ one. stay _ (ground arith) (ground (arith, and_three word))))
        (λ bad. absurd (ground (arith, and_high_mask word fits, and_three word)))

  unlock_swap-Kept :
      (state parked : ℕ)
      → Counts (1 + xo) ro word
      → IsSane n word (Pc.ux_swap state parked)
      → Kept (unlock_swap word state parked)
  unfolding unlock_swap
  unlock_swap-Kept state parked h k =
      if_intro Kept (word == state)
        (λ e.
          if_intro (λ pc. Kept (0, pc)) (parked == readers_parked) (λ r. ground arith)
            (λ r.
              if_intro (λ pc. Kept (0, pc)) (parked == writers_parked) (λ v. ground arith)
                (λ v. absurd (ground arith))))
        (λ e.
          if_intro Kept (word == 2 ^ 64 - 1) (λ full. stay _ (ground arith) tt)
            (λ partial. absurd (ground arith)))

  leave_writer-Kept : Counts (1 + xo) ro word → Kept (leave_writer c word)
  unfolding leave_writer
  leave_writer-Kept h =
      if_intro Kept c.downgrades
        (λ _.
          if_intro (λ pc. Kept (bit_and word 6, pc)) (bit_and word readers_parked == 0)
            (λ none_parked. ground (arith, and_six word))
            (λ some_parked. ground (arith, and_six word)))
        (λ _.
          if_intro Kept (word == one_writer) (λ plain. ground arith)
            (λ flagged. stay _ (ground arith) (ground arith)))

  leave_reader-Kept : Counts xo (1 + ro) word → Kept (leave_reader word)
  unfolding leave_reader
  leave_reader-Kept h =
      if_intro (λ pc. Kept ((word + 2 ^ 64 - one_reader) % 2 ^ 64, pc)) (word == 6)
        (λ last. ground arith) (λ more. ground arith)

  begin-Kept : (call : Call) → Counts xo ro word → Kept (begin call c word)
  unfolding begin
  begin-Kept Call.try_lock_exclusive h =
      if_intro Kept (word == 0) (λ free. ground arith) (λ taken. stay _ (ground arith) tt)
  begin-Kept Call.lock_exclusive h =
      if_intro Kept (word == 0 && not c.spurious) (λ free. ground arith)
        (λ taken. stay _ (ground arith) (inl refl))
  begin-Kept Call.try_lock_shared h = stay _ (ground arith) (past h)
  begin-Kept Call.lock_shared h = stay _ (ground arith) (past h)

  -- Every step, from every place.
  pub advance-Kept :
      (pc : Pc)
      → Counts (writes pc + xo) (reads pc + ro) word
      → IsSane n word pc
      → Kept (advance c word pc)
  unfolding advance
  advance-Kept Pc.idle h k = begin-Kept c.call (ground arith)
  advance-Kept Pc.reader h k = leave_reader-Kept (ground arith)
  advance-Kept Pc.writer h k = leave_writer-Kept (ground arith)
  advance-Kept (Pc.ex_outer aw) h k = stay _ h (k, past (ground arith))
  advance-Kept (Pc.ex_loop aw state) h k = exclusive_loop-Kept aw state (ground arith) k.0 k.1
  advance-Kept Pc.ex_park h k =
      if_intro (λ pc. Kept (word, pc)) (exclusive_validate word) (λ _. stay _ h tt)
        (λ _. stay _ h (inr refl))
  advance-Kept Pc.ex_parked h k =
      if_intro (λ pc. Kept (word, pc)) c.wakes (λ _. stay _ h (inr refl)) (λ _. stay _ h tt)
  advance-Kept (Pc.fast caller state) h k = shared_fast-Kept caller state (ground arith)
  advance-Kept Pc.try_slow h k = stay _ h (past (ground arith))
  advance-Kept (Pc.try_loop state) h k = try_shared_loop-Kept state (ground arith)
  advance-Kept Pc.sh_outer h k = stay _ h (past (ground arith))
  advance-Kept (Pc.sh_loop state) h k = shared_loop-Kept state (ground arith) k
  advance-Kept Pc.sh_reload h k = stay _ h (past (ground arith))
  advance-Kept Pc.sh_park h k =
      if_intro (λ pc. Kept (word, pc)) (shared_validate word) (λ _. stay _ h tt) (λ _. stay _ h tt)
  advance-Kept Pc.sh_parked h k =
      if_intro (λ pc. Kept (word, pc)) c.wakes (λ _. stay _ h tt) (λ _. stay _ h tt)
  advance-Kept Pc.ux_slow h k = unlock_slow-Kept (ground arith) k
  advance-Kept (Pc.ux_swap state parked) h k = unlock_swap-Kept state parked (ground arith) k
  advance-Kept Pc.ux_store h k = ground arith
  advance-Kept Pc.wake_readers h k = stay _ h tt
  advance-Kept Pc.wake_writer h k = stay _ h tt
  advance-Kept Pc.dg_wake h k = stay _ h tt
  advance-Kept Pc.us_slow h k =
      if_intro Kept (word == writers_parked) (λ alone. ground arith) (λ _. stay _ h tt)
  advance-Kept Pc.failed h k = absurd k
