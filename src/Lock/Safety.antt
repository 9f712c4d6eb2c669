-- ===== src/Lock/Safety.antt =====
-- What follows from the invariant, in every state that any number of callers can reach.
use dashmap.Base.{
  ℕ, ◌+◌, ◌-◌, ◌/◌, ◌%◌, ◌<◌, ◌≡◌, ◌≢◌, ◌⊎◌, some, true, false, get_elem?, arith, total, le-total,
  add-le-total, total-le,
}
use dashmap.Base.Bits.{and_high_mask, and_six}
use dashmap.Lock.Word.{one_reader}
use dashmap.Lock.Thread.{Choice, Call, Pc, advance, begin}
use dashmap.Lock.System.{System, Reach}
use dashmap.Lock.Invariant.{reads, writes, all_ones, reads-le, Reach-Inv}

-- In every state that callers fewer than 2 ^ 62 - 2 can reach: while a thread holds the lock
-- exclusively, no other thread holds it, exclusively or shared.
pub mutual_exclusion :
    {n : ℕ} {s : System}
    → n < all_ones - 1
    → Reach n s
    → (i j : ℕ) {p q : Pc} → i ≢ j
    → get_elem? s.threads i ≡ some p
    → get_elem? s.threads j ≡ some q
    → writes p ≡ 1
    → (writes q ≡ 0) × (reads q ≡ 0)
mutual_exclusion {s} few r i j ne at_i at_j w = ground (
  arith,
  (Reach-Inv few r).counts,
  le-total writes s.threads i at_i,
  add-le-total writes s.threads i j at_i at_j ne,
  le-total reads s.threads j at_j,
)

-- In every state that callers fewer than 2 ^ 62 - 2 can reach, no thread stands at a failed
-- assertion: the slow paths never overflow the reader count, and a writer that unlocks slowly finds
-- its own bits and a flag.
pub never_fails :
    {n : ℕ} {s : System}
    → n < all_ones - 1
    → Reach n s
    → (i : ℕ) → get_elem? s.threads i ≢ some Pc.failed
never_fails few r i at = (Reach-Inv few r).sane i Pc.failed at

-- In every state that callers fewer than 2 ^ 62 - 2 can reach: either nobody writes and the upper
-- bits of the word are the number of readers, or one thread writes, nobody reads and these bits are
-- all ones.
pub word_counts :
    {n : ℕ} {s : System}
    → n < all_ones - 1
    → Reach n s
    → ((total writes s.threads ≡ 0) × (s.word / 4 ≡ total reads s.threads))
      ⊎ ((total writes s.threads ≡ 1) × (total reads s.threads ≡ 0) × (s.word / 4 ≡ all_ones))
word_counts few r = (Reach-Inv few r).counts

-- In a state that callers fewer than 2 ^ 62 - 2 can reach, where `try_lock_exclusive` succeeds no
-- thread holds the lock.
pub try_lock_exclusive_free :
    {n : ℕ} {s : System} (c : Choice)
    → n < all_ones - 1
    → Reach n s
    → (begin Call.try_lock_exclusive c s.word).1 ≡ Pc.writer
    → (total writes s.threads ≡ 0) × (total reads s.threads ≡ 0)
unfolding begin
try_lock_exclusive_free c few r h = ground (arith, (Reach-Inv few r).counts)

-- In a state that callers fewer than 2 ^ 62 - 2 can reach and in which nobody holds the lock, a
-- thread at the head of the outer loop of `lock_exclusive_slow` holds it after its next two steps,
-- if nobody else steps between them and the exchange does not fail for no reason.
pub exclusive_alone :
    {n : ℕ} {s : System} (c d : Choice) (aw : ℕ)
    → n < all_ones - 1
    → Reach n s
    → total writes s.threads ≡ 0
    → total reads s.threads ≡ 0
    → d.spurious ≡ false
    → (let (word, pc) = advance c s.word (Pc.ex_outer aw) in advance d word pc).1 ≡ Pc.writer
unfolding advance
exclusive_alone {s} c d aw few r no_writer no_reader exact =
    ground (arith, (Reach-Inv few r).counts, and_high_mask s.word (Reach-Inv few r).fits)

-- In a state that callers fewer than 2 ^ 62 - 2 can reach and in which nobody writes, a thread at
-- the head of the outer loop of `lock_shared_slow` is one more reader after its next two steps, if
-- nobody else steps between them and the exchange does not fail for no reason.
pub shared_alone :
    {n : ℕ} {s : System} (c d : Choice)
    → n < all_ones - 1
    → Reach n s
    → total writes s.threads ≡ 0
    → d.spurious ≡ false
    → (let (word, pc) = advance c s.word Pc.sh_outer in advance d word pc)
      ≡ (s.word + one_reader, Pc.reader)
unfolding advance
shared_alone {s} c d few r no_writer exact =
    let inv = Reach-Inv few r in
    let below : s.word / 4 < all_ones - 1 =
      ground (arith, inv.counts, inv.size, total-le reads reads-le s.threads) in
    ground (arith, and_high_mask (s.word + 4) (omega arith))

-- In a state that callers fewer than 2 ^ 62 - 2 can reach, the step by which a writer downgrades
-- leaves it a reader, the only one that the word counts, with the flag of sleeping readers cleared.
pub downgrade_keeps :
    {n : ℕ} {s : System} (c : Choice)
    → n < all_ones - 1
    → Reach n s
    → (i : ℕ) → get_elem? s.threads i ≡ some Pc.writer
    → c.downgrades ≡ true
    → (reads (advance c s.word Pc.writer).1 ≡ 1)
      × ((advance c s.word Pc.writer).0 / 4 ≡ 1)
      × ((advance c s.word Pc.writer).0 % 2 ≡ 0)
unfolding advance
downgrade_keeps {s} c few r i at down =
    ground (arith, (Reach-Inv few r).counts, le-total writes s.threads i at, and_six s.word)
