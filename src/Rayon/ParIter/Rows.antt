-- ===== src/Rayon/ParIter/Rows.antt =====
-- What one event does to a shard and its task.
use dashmap.Base.{
  ℕ, zero, suc, ◌+◌, ◌-◌, ◌*◌, ◌≤◌, ◌^◌, ◌≡◌, refl, sym, ◌∙◌, ap, ◌⊎◌, inl, inr, List, [], ◌∷◌,
  length, length-map, lt→ltb, subst, arith,
}
use dashmap.Base.Outcome.{Outcome, done, ◌>>=◌}
use dashmap.Lock.Alone
use dashmap.Lock.Quiet.{lock_shared_lem, unlock_shared_lem}
use dashmap.Table.{HashTable}
use dashmap.Map.{RwLock}
use dashmap.Map.Loops.{IsReadable}
use dashmap.Map.Iter.{pairs}
use dashmap.Rayon.Tasks.Driven.{Moves, moved}
use dashmap.Rayon.ParIter.{
  Task, unstarted, running, ended, closed, Row, Event, start, give, release, finish, occur, let_go,
}

module _ {ℓ} {T K V : Type ℓ} where
  -- a shard as it is when its task holds no lock
  abbrev pub at_rest : RwLock T → Task K V → RwLock T
  at_rest s unstarted = s
  at_rest s (running refs es) = record s { raw = s.raw - 4 }
  at_rest s (ended refs) = record s { raw = s.raw - 4 }
  at_rest s closed = s

  abbrev pub Holds : RwLock T → Task K V → Type 0
  Holds s unstarted = Unit
  Holds s (running refs es) = 4 ≤ s.raw
  Holds s (ended refs) = (4 ≤ s.raw) × (1 ≤ refs)
  Holds s closed = Unit

  pub record Fits (s : RwLock T) (t : Task K V) : Type 0 where
    pub readable : IsReadable (at_rest s t)
    pub holds : Holds s t

  abbrev pub rest_of : Row T K V → RwLock T
  rest_of r = at_rest r.shard r.task

  abbrev pub InOrder : Row T K V → Type 0
  InOrder r = Fits r.shard r.task

module _ {ℓ} {K V : Type ℓ} (H : HashTable (K × V)) where
  open H use {T, slots}

  -- the items that a task has still to give, and the events that are left
  abbrev pub owed : RwLock T → Task K V → List (K × V)
  owed s unstarted = pairs H s.data_ptr
  owed s (running refs es) = es
  owed s (ended refs) = []
  owed s closed = []

  abbrev pub events_left : RwLock T → Task K V → ℕ
  events_left s unstarted = 2 * length (slots s.data_ptr) + 2
  events_left s (running refs es) = refs + 2 * length es + 1
  events_left s (ended refs) = refs
  events_left s closed = 0

  abbrev pub owed_in : Row T K V → List (K × V)
  owed_in r = owed r.shard r.task

  abbrev pub left_in : Row T K V → ℕ
  left_in r = events_left r.shard r.task

  abbrev pub MovesTo : RwLock T → Task K V → Row T K V → List (K × V) → Type ℓ
  MovesTo s t = Moves rest_of InOrder owed_in left_in (record { shard = s; task = t })

  moved_to :
      (s : RwLock T) (t : Task K V) {r r' : Row T K V} {items items' : List (K × V)}
      → MovesTo s t r items
      → ◌≡◌ {A = Outcome (Row T K V × List (K × V))} (done (r, items)) (done (r', items'))
      → MovesTo s t r' items'
  moved_to s t = moved rest_of InOrder owed_in left_in (record { shard = s; task = t })

  locks : (s : RwLock T) → IsReadable s → Alone.lock_shared s.raw ≡ done (s.raw + 4)
  locks s ok = rw (lock_shared_lem s.raw ok.quiet, lt→ltb (s.raw + 8) (2 ^ 64) ok.room)

  unlocks :
      (s : RwLock T)
      → IsReadable (record s { raw = s.raw - 4 })
      → 4 ≤ s.raw
      → Alone.unlock_shared s.raw ≡ s.raw - 4
  unlocks s ok held =
      let e : s.raw - 4 + 4 ≡ s.raw = omega arith in
      sym (ap Alone.unlock_shared e)
      ∙ unlock_shared_lem (s.raw - 4) ok.quiet (omega (arith, ok.room))

  let_go-Moves :
      (s : RwLock T) (t : Task K V)
      → IsReadable (record s { raw = s.raw - 4 })
      → 4 ≤ s.raw
      → at_rest s t ≡ record s { raw = s.raw - 4 }
      → owed s t ≡ []
      → events_left s t ≡ 1
      → MovesTo s t (let_go s) []
  unfolding let_go
  let_go-Moves s t ok held rests nothing one = rw (unlocks s ok held) (record {
    fits = record { readable = ok; holds = tt };
    rests = sym rests;
    pays = sym nothing;
    fewer = one;
  })

  pub occur-Moves :
      (e : Event) (s : RwLock T) (t : Task K V) {r : Row T K V} {items : List (K × V)}
      → occur H e s t ≡ done (r, items)
      → Fits s t
      → MovesTo s t r items
  unfolding occur
  occur-Moves start s unstarted h f =
      let run = rw (locks s f.readable, ◌>>=◌) at h in
      let back : s.raw ≡ s.raw + 4 - 4 = omega arith in
      let rested : record s { raw = s.raw + 4 - 4 } ≡ s =
        ap (λ (n : ℕ). record { raw = n; data_ptr = s.data_ptr }) (sym back) in
      moved_to s unstarted
        (record {
          fits = record {
            readable = subst IsReadable (sym rested) f.readable;
            holds = omega arith;
          };
          rests = rested;
          pays = refl;
          fewer = omega (arith, length-map (λ (e : ℕ × (K × V)). e.1) (slots s.data_ptr));
        })
        run
  occur-Moves give s (running refs (e ∷ es)) h f =
      moved_to s (running refs (e ∷ es))
        (record {
          fits = record { readable = f.readable; holds = f.holds };
          rests = refl;
          pays = refl;
          fewer = omega arith;
        })
        h
  occur-Moves release s (running (suc refs) es) h f =
      moved_to s (running (suc refs) es)
        (record {
          fits = record { readable = f.readable; holds = f.holds };
          rests = refl;
          pays = refl;
          fewer = omega arith;
        })
        h
  occur-Moves release s (ended (suc zero)) h f =
      moved_to s (ended 1) (let_go-Moves s (ended 1) f.readable f.holds.0 refl refl refl) h
  occur-Moves release s (ended (suc (suc refs))) h f =
      moved_to s (ended (suc (suc refs)))
        (record {
          fits = record { readable = f.readable; holds = (f.holds.0, omega arith) };
          rests = refl;
          pays = refl;
          fewer = refl;
        })
        h
  occur-Moves finish s (running zero []) h f =
      moved_to s (running 0 []) (let_go-Moves s (running 0 []) f.readable f.holds refl refl refl) h
  occur-Moves finish s (running (suc refs) []) h f =
      moved_to s (running (suc refs) [])
        (record {
          fits = record { readable = f.readable; holds = (f.holds, omega arith) };
          rests = refl;
          pays = refl;
          fewer = omega arith;
        })
        h
  occur-Moves _ s _ h f = cc

  -- Something can happen to a task that is not done.
  pub can_occur :
      (s : RwLock T) (t : Task K V)
      → Fits s t
      → (t ≡ closed)
        ⊎ ((e : Event) × (r : Row T K V) × (items : List (K × V)) × (occur H e s t
              ≡ done (r, items)))
  unfolding occur
  can_occur s unstarted f =
      let r : Row T K V = record {
        shard = record s { raw = s.raw + 4 };
        task = running 0 (pairs H s.data_ptr);
      } in
      inr (start, r, [], rw (locks s f.readable, ◌>>=◌))
  can_occur s (running refs (e ∷ es)) f = inr (give, _, _, refl)
  can_occur s (running zero []) f = inr (finish, _, _, refl)
  can_occur s (running (suc refs) []) f = inr (finish, _, _, refl)
  can_occur s (ended zero) f = absurd (omega (arith, f.holds.1))
  can_occur s (ended (suc zero)) f = inr (release, _, _, refl)
  can_occur s (ended (suc (suc refs))) f = inr (release, _, _, refl)
  can_occur s closed f = inl refl
