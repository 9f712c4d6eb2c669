-- ===== src/Concurrent/Advancing.antt =====
-- A step of a thread, whatever it is.
use dashmap.Base.{
  ℕ, ◌+◌, ◌*◌, ◌≤◌, ◌^◌, ◌≡◌, sym, ◌∙◌, subst, inl, inr, false, Bool-cases, some, List, [], ◌∷◌,
  get_elem?, ℕ_discrete, dec_lt, ltb, arith, length,
}
use dashmap.Base.Outcome.{done, blocked, panicked, ◌>>=◌}
use dashmap.Key.{Key}
use dashmap.Lock.Quiet.{lock_shared_lem}
use dashmap.Lock.Word.{one_writer}
use dashmap.Table.{HashTable}
use dashmap.Map.{DashMap, read, hash_u64}
use dashmap.Map.Guards.{shard_at_lem, write_taken, read_blocked}
use dashmap.Map.State.{home, located}
use dashmap.Concurrent.{
  Call, Reply, key_of, is_exclusive, Thread, outside, inside, leaving, enter, advance,
}
use dashmap.Concurrent.Guards.{readers-le-length}
use dashmap.Concurrent.Between.{Between}
use dashmap.Concurrent.Steps.{Moved, enters_exclusive, enters_shared}
use dashmap.Concurrent.Steps.Working.{works}
use dashmap.Concurrent.Steps.Leaving.{leaves}

module _ {ℓ} {K V S : Type ℓ} (key : Key K S) (H : HashTable (K × V)) (m : DashMap H.T S)
    (ws : List (Thread H.T K V)) (b : Between key H m ws) (j : ℕ) where
  open H use {T, slots}

  -- A thread that can step, with what its step does.
  pub record Goes (w : Thread T K V) : Type ℓ where
    pub w' : Thread T K V
    pub m' : DashMap T S
    pub runs : advance key H w m ≡ done (w', m')
    pub moved : Moved key H m ws j w w' m'

  moving :
      {w w' : Thread T K V} {m' : DashMap T S}
      → Moved key H m ws j w w' m'
      → advance key H w m ≡ done (w', m')
      → Goes w
  moving {w' = w'} {m'} moved runs = record { w' = w'; m' = m'; runs = runs; moved = moved }

  -- A call that takes its lock, or waits; it overflows the word only with very many readers.
  pub data Enters (c : Call K V) (cs : List (Call K V)) (rs : List (Reply K V)) : Type ℓ where
    goes : Goes (outside (c ∷ cs) rs) → Enters c cs rs
    waits : advance key H (outside (c ∷ cs) rs) m ≡ blocked → Enters c cs rs
    fails :
        advance key H (outside (c ∷ cs) rs) m ≡ panicked
        → 2 ^ 64 ≤ 4 * length ws + 8
        → Enters c cs rs

  pub can_enter :
      (c : Call K V) (cs : List (Call K V)) (rs : List (Reply K V))
      → get_elem? ws j ≡ some (outside (c ∷ cs) rs)
      → Enters c cs rs
  unfolding advance enter hash_u64 read
  can_enter c cs rs at =
      let l = located key H m (key_of c) b.valid in
      let i = home key H m (key_of c) in
      elim (Bool-cases (is_exclusive c)) [
        | inl ex ↦ elim (ℕ_discrete l.s.raw 0) [
          | yes free ↦
              let (run, moved) = enters_exclusive key H m ws b j c cs rs at ex free in
              goes (moving moved (rw (run, ◌>>=◌)))
          | no taken ↦ waits (rw (l.run, ◌>>=◌, ex, write_taken m i l.s l.at l.quiet taken))
        ]
        | inr shares ↦ elim (dec_lt (l.s.raw + 8) (2 ^ 64)) [
          | yes room ↦
              let (run, moved) = enters_shared key H m ws b j c cs rs at shares room in
              goes (moving moved (rw (run, ◌>>=◌)))
          | no full ↦ elim (b.words.alone i) [
            | inr (one, none) ↦
                let taken : l.s.raw ≡ one_writer =
                  omega (arith, b.words.raws i l.s l.at, one, none) in
                waits (rw (l.run, ◌>>=◌, shares, read_blocked m i l.s l.at taken))
            | inl none ↦
                let raw_is = b.words.raws i l.s l.at in
                let many : 2 ^ 64 ≤ 4 * length ws + 8 =
                  omega (arith, raw_is, none, readers-le-length i ws) in
                let tight : ltb (l.s.raw + 8) (2 ^ 64) ≡ false = ground arith in
                let asks = lock_shared_lem l.s.raw l.quiet in
                elim (Bool-cases (ltb (l.s.raw + 4) (2 ^ 64))) [
                  | inl over ↦
                      fails
                        (rw (l.run, ◌>>=◌, shares, shard_at_lem m i l.s l.at, asks, tight, over))
                        many
                  | inr under ↦
                      waits
                        (rw (l.run, ◌>>=◌, shares, shard_at_lem m i l.s l.at, asks, tight, under))
                ]
          ]
        ]
      ]

  -- A call starts where nobody has the lock of its shard.
  pub can_start :
      (c : Call K V) (cs : List (Call K V)) (rs : List (Reply K V))
      → get_elem? ws j ≡ some (outside (c ∷ cs) rs)
      → (located key H m (key_of c) b.valid).s.raw ≡ 0
      → Goes (outside (c ∷ cs) rs)
  unfolding advance
  can_start c cs rs at free = elim (Bool-cases (is_exclusive c)) [
    | inl ex ↦
        let (run, moved) = enters_exclusive key H m ws b j c cs rs at ex free in
        moving moved (rw (run, ◌>>=◌))
    | inr shares ↦
        let (run, moved) = enters_shared key H m ws b j c cs rs at shares (omega (arith, free)) in
        moving moved (rw (run, ◌>>=◌))
  ]

  -- With the lock, or with the work done, a thread can always step.
  pub can_work :
      (c : Call K V) (idx : ℕ) (t : T) (cs : List (Call K V)) (rs : List (Reply K V))
      → get_elem? ws j ≡ some (inside c idx t cs rs)
      → Goes (inside c idx t cs rs)
  unfolding advance
  can_work c idx t cs rs at =
      let (s, own, there, table) = b.fetched j (inside c idx t cs rs) at in
      subst (λ (i : ℕ). Goes (inside c i t cs rs)) (sym own)
        (subst (λ u. Goes (inside c (home key H m (key_of c)) u cs rs)) table
          (let here = subst (λ (i : ℕ). get_elem? m.shards i ≡ some s) own there in
            let this =
              subst (λ u. get_elem? ws j ≡ some (inside c (home key H m (key_of c)) u cs rs))
                (sym table)
                (subst (λ (i : ℕ). get_elem? ws j ≡ some (inside c i t cs rs)) own at) in
            let (run, moved) = works key H m ws b j c cs rs s here this in
            moving moved (rw (run, ◌>>=◌))))

  pub can_leave :
      (c : Call K V) (idx : ℕ) (cs : List (Call K V)) (rs : List (Reply K V))
      → get_elem? ws j ≡ some (leaving c idx cs rs)
      → Goes (leaving c idx cs rs)
  unfolding advance
  can_leave c idx cs rs at =
      let (s, there) = b.fetched j (leaving c idx cs rs) at in
      let (m', run, moved) = leaves key H m ws b j c idx cs rs s there at in
      moving moved (rw (run, ◌>>=◌))

  -- What a step that was made does.
  of_run :
      {w w₂ : Thread T K V} {m₂ : DashMap T S}
      → (g : Goes w) → advance key H w m ≡ done (w₂, m₂)
      → Moved key H m ws j w w₂ m₂
  of_run {w} {w₂} {m₂} g run =
      let both = sym g.runs ∙ run in
      let same_w : g.w' ≡ w₂ = cc in
      let same_m : g.m' ≡ m₂ = cc in
      subst (λ u. Moved key H m ws j w u m₂) same_w
        (subst (λ x. Moved key H m ws j w g.w' x) same_m g.moved)

  pub advance-Moved :
      (w : Thread T K V) {w' : Thread T K V} {m' : DashMap T S}
      → get_elem? ws j ≡ some w
      → advance key H w m ≡ done (w', m')
      → Moved key H m ws j w w' m'
  unfolding advance
  advance-Moved (outside [] rs) at run = cc
  advance-Moved (outside (c ∷ cs) rs) at run = elim (can_enter c cs rs at) [
    | goes g ↦ of_run g run
    | waits h ↦ let bad = sym h ∙ run in cc
    | fails h _ ↦ let bad = sym h ∙ run in cc
  ]
  advance-Moved (inside c idx t cs rs) at run = of_run (can_work c idx t cs rs at) run
  advance-Moved (leaving c idx cs rs) at run = of_run (can_leave c idx cs rs at) run
