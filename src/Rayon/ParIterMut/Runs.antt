-- ===== src/Rayon/ParIterMut/Runs.antt =====
-- The runs of a parallel iterator for writes, against the loop over one entry after another.
use dashmap.Base.{ℕ, ◌≡◌, refl, sym, ◌∙◌, ap, subst, List, [], ◌∷◌, ◌++◌, map, All, Permᴰ}
use mathlib.Core.List.Permᴰ
use dashmap.Base.Outcome.{done}
use dashmap.Key.{Key}
use dashmap.Table.{HashTable}
use dashmap.Map.{RwLock, DashMap}
use dashmap.Map.State.{IsValid}
use dashmap.Map.Iter.{pairs}
use dashmap.Map.IterMut.{alter_all}
use dashmap.Map.Altered.{altered}
use dashmap.Map.AlterAll.{alter_all_run}
use dashmap.Map.Loops.{changed}
use dashmap.Map.Pairs.{Lists, all_pairs, all_pairs-Lists}
use dashmap.Map.Distinct.{Lists-perm}
use dashmap.Rayon.Tasks.{drive}
use dashmap.Rayon.Tasks.Driven.{all_owed, drive-Driven}
use dashmap.Rayon.ParIterMut.{unstarted, closed, Row, Event, par_iter_mut, occur_in}
use dashmap.Rayon.ParIterMut.Changed.{rest_of, InOrder, owed_in, left_in, occur-Moves}

abbrev pub AllClosed {ℓ} : {T : Type ℓ} → List (Row T) → Type 0
AllClosed rows = All (λ r. r.task ≡ closed) rows

-- the map that the shards make up after a run
abbrev pub left_map {ℓ} : {T S : Type ℓ} → DashMap T S → List (Row T) → DashMap T S
left_map m rows = record m { shards = map (λ r. r.shard) rows }

module _ {ℓ} {K V : Type ℓ} (H : HashTable (K × V)) (f : K → V → V) where
  open H use {T, slots}

  closed-resting :
      (rows : List (Row T)) → AllClosed rows → map (rest_of H f) rows ≡ map (λ r. r.shard) rows
  closed-resting [] h = refl
  closed-resting (r ∷ rows) h = rw h.0 (ap (λ l. r.shard ∷ l) (closed-resting rows h.1))

  closed-owed : (rows : List (Row T)) → AllClosed rows → all_owed (owed_in H f) rows ≡ []
  unfolding all_owed
  closed-owed [] h = refl
  closed-owed (r ∷ rows) h = rw (h.0, closed-owed rows h.1)

  start-owed :
      (ss : List (RwLock T))
      → all_owed (owed_in H f) (map (λ s. record { shard = s; task = unstarted }) ss)
        ≡ all_pairs H ss
  unfolding all_owed all_pairs
  start-owed [] = refl
  start-owed (s ∷ ss) = ap (λ l. pairs H s.data_ptr ++ l) (start-owed ss)

  start-resting :
      (ss : List (RwLock T))
      → map (rest_of H f) (map (λ s. record { shard = s; task = unstarted }) ss)
        ≡ map (changed (altered H f)) ss
  start-resting [] = refl
  start-resting (s ∷ ss) = ap (λ l. changed (altered H f) s ∷ l) (start-resting ss)

  start-AllFit :
      (ss : List (RwLock T))
      → All (λ s. s.raw ≡ 0) ss
      → All (InOrder H f) (map (λ s. record { shard = s; task = unstarted }) ss)
  start-AllFit [] h = tt
  start-AllFit (s ∷ ss) h = (h.0, start-AllFit ss h.1)

module _ {ℓ} {K V S : Type ℓ} (key : Key K S) (H : HashTable (K × V)) (m : DashMap H.T S)
    (valid : IsValid key H m) (free : All (λ s. s.raw ≡ 0) m.shards) where
  open H use {T, slots}

  -- However the tasks of `par_iter_mut` with `for_each` interleave on a valid map that nobody holds
  -- a lock of: once all are done the map is what `alter_all` with the same closure leaves, and the
  -- closure has been given each key that the map held once and no other, with what was under it.
  pub par_iter_mut_lem :
      (f : K → V → V) (events : List (ℕ × Event)) {rows : List (Row T)} {items : List (K × V)}
      → drive (occur_in H f) events (par_iter_mut m) ≡ done (rows, items)
      → AllClosed rows
      → (alter_all H m f ≡ done (left_map m rows)) × Lists key H m items
  par_iter_mut_lem f events {rows} {items} run all =
      let d =
        drive-Driven (rest_of H f) (InOrder H f) (owed_in H f) (left_in H f) (occur_in H f)
          (λ e r r' items. occur-Moves H f e r.shard r.task) events (par_iter_mut m)
          (start-AllFit H f m.shards free) run in
      let shards_now = sym (closed-resting H f rows all) ∙ d.rests ∙ start-resting H f m.shards in
      let paid =
        subst (λ l. Permᴰ (items ++ l) (all_owed (owed_in H f) (par_iter_mut m)))
          (closed-owed H f rows all) d.pays in
      let perm =
        subst (λ l. Permᴰ items l) (start-owed H f m.shards)
          (Permᴰ.trans (Permᴰ.symm (Permᴰ.append-nil items)) paid) in
      (
        alter_all_run key H m valid free f
            ∙ ap (λ l. done (record m { shards = l })) (sym shards_now),
        Lists-perm key H m perm (all_pairs-Lists key H m valid),
      )
