-- ===== src/Rayon/Workers.antt =====
-- What the workers hold and what they have still to insert, as one of them takes a step.
use dashmap.Base.{
  ℕ, zero, suc, ◌+◌, ◌*◌, ◌≤◌, ◌≡◌, ◌≢◌, refl, sym, ◌∙◌, ap, inl, inr, some, List, [], ◌∷◌, map,
  Permᴰ, get_elem?, set, total, total-set, le-total, add-le-total, to_nat, ◌==◌, eq→==,
  get_elem?-set_cases, get_elem?-set_ne, arith, subst, length, ℕ_discrete,
}
use mathlib.Core.List.Permᴰ
use dashmap.Key.{Key}
use dashmap.Lock.Word.{one_writer}
use dashmap.Table.{HashTable}
use dashmap.Map.{RwLock, DashMap, put_shard}
use dashmap.Map.Entry.{Entry, into_key}
use dashmap.Rayon.{Worker, waiting, inside, finished, worker}
use dashmap.Rayon.Commit.{shard_of}
use dashmap.Rayon.Released.{Enters}

module _ {ℓ} {K V : Type ℓ} where
  -- the pairs that are not yet in the map
  unfoldable pub pending : List (Worker K V) → List (K × V)
  pending [] = []
  pending (waiting k v ∷ ws) = (k, v) ∷ pending ws
  pending (inside e v ∷ ws) = (into_key e, v) ∷ pending ws
  pending (finished ∷ ws) = pending ws

  -- whether a worker holds the lock of shard `i`, and how many do
  abbrev pub holds : ℕ → Worker K V → ℕ
  holds i (waiting k v) = 0
  holds i (inside e v) = to_nat (shard_of e == i)
  holds i finished = 0

  unfoldable pub holders : ℕ → List (Worker K V) → ℕ
  holders i ws = total (holds i) ws

  -- the steps that a worker has left, and all of them
  abbrev pub left : Worker K V → ℕ
  left (waiting k v) = 2
  left (inside e v) = 1
  left finished = 0

  unfoldable pub work : List (Worker K V) → ℕ
  work ws = total left ws

  pub pending-enter :
      (ws : List (Worker K V)) (j : ℕ) (k : K) (v : V) (e : Entry K V)
      → get_elem? ws j ≡ some (waiting k v)
      → into_key e ≡ k
      → pending (set ws j (inside e v)) ≡ pending ws
  unfolding pending
  pending-enter [] j k v e at same = cc
  pending-enter (w ∷ ws) zero k v e at same =
      let w_is : waiting k v ≡ w = cc in
      subst (λ u. (into_key e, v) ∷ pending ws ≡ pending (u ∷ ws)) w_is
        (ap (λ j. (j, v) ∷ pending ws) same)
  pending-enter (waiting k' v' ∷ ws) (suc j) k v e at same =
      ap (λ l. (k', v') ∷ l) (pending-enter ws j k v e at same)
  pending-enter (inside e' v' ∷ ws) (suc j) k v e at same =
      ap (λ l. (into_key e', v') ∷ l) (pending-enter ws j k v e at same)
  pending-enter (finished ∷ ws) (suc j) k v e at same = pending-enter ws j k v e at same

  pub pending-leave :
      (ws : List (Worker K V)) (j : ℕ) (e : Entry K V) (v : V)
      → get_elem? ws j ≡ some (inside e v)
      → Permᴰ (pending ws) ((into_key e, v) ∷ pending (set ws j finished))
  unfolding pending
  pending-leave [] j e v at = cc
  pending-leave (w ∷ ws) zero e v at =
      let w_is : inside e v ≡ w = cc in
      subst (λ u. Permᴰ (pending (u ∷ ws)) ((into_key e, v) ∷ pending ws)) w_is
        (Permᴰ.refl ((into_key e, v) ∷ pending ws))
  pending-leave (waiting k' v' ∷ ws) (suc j) e v at =
      Permᴰ.trans (Permᴰ.cons refl (pending-leave ws j e v at)) (Permᴰ.swap refl refl)
  pending-leave (inside e' v' ∷ ws) (suc j) e v at =
      Permᴰ.trans (Permᴰ.cons refl (pending-leave ws j e v at)) (Permᴰ.swap refl refl)
  pending-leave (finished ∷ ws) (suc j) e v at = pending-leave ws j e v at

  pub pending-start : (pairs : List (K × V)) → pending (map worker pairs) ≡ pairs
  unfolding pending
  pending-start [] = refl
  pending-start (e ∷ pairs) = ap (λ l. e ∷ l) (pending-start pairs)

  pub holders-start : (i : ℕ) (pairs : List (K × V)) → holders i (map worker pairs) ≡ 0
  unfolding holders total
  holders-start i [] = refl
  holders-start i (e ∷ pairs) = omega (arith, holders-start i pairs)

  pub work-start : (pairs : List (K × V)) → work (map worker pairs) ≡ 2 * length pairs
  unfolding work total
  work-start [] = refl
  work-start (e ∷ pairs) = omega (arith, work-start pairs)

  pub pending-done : (ws : List (Worker K V)) → work ws ≡ 0 → pending ws ≡ []
  unfolding pending work total
  pending-done [] h = refl
  pending-done (waiting k v ∷ ws) h = absurd (omega arith)
  pending-done (inside e v ∷ ws) h = absurd (omega arith)
  pending-done (finished ∷ ws) h = pending-done ws (omega arith)

  holds-le-left : (i : ℕ) (w : Worker K V) → holds i w ≤ left w
  holds-le-left i (waiting k v) = omega arith
  holds-le-left i (inside e v) = ground arith
  holds-le-left i finished = omega arith

  pub holders-le-work : (i : ℕ) (ws : List (Worker K V)) → holders i ws ≤ work ws
  unfolding holders work total
  holders-le-work i [] = omega arith
  holders-le-work i (w ∷ ws) = omega (arith, holds-le-left i w, holders-le-work i ws)

  module _ (ws : List (Worker K V)) (j : ℕ) (w' : Worker K V) {w : Worker K V}
      (at : get_elem? ws j ≡ some w) where
    pub holders-set : (i : ℕ) → holders i (set ws j w') + holds i w ≡ holders i ws + holds i w'
    unfolding holders
    holders-set i = total-set (holds i) ws j w' at

    pub work-set : work (set ws j w') + left w ≡ work ws + left w'
    unfolding work
    work-set = total-set left ws j w' at

  pub holders-at :
      (ws : List (Worker K V)) (j : ℕ) {e : Entry K V} {v : V}
      → get_elem? ws j ≡ some (inside e v)
      → 1 ≤ holders (shard_of e) ws
  unfolding holders
  holders-at ws j {e} at =
      let one = le-total (holds (shard_of e)) ws j at in
      ground (arith, one, eq→== (shard_of e) (shard_of e) refl)

  -- Two workers with the lock of one shard are too many.
  pub holders-twice :
      (ws : List (Worker K V)) (i j : ℕ) {e e' : Entry K V} {v v' : V}
      → get_elem? ws i ≡ some (inside e v)
      → get_elem? ws j ≡ some (inside e' v')
      → i ≢ j
      → shard_of e ≡ shard_of e'
      → 2 ≤ holders (shard_of e) ws
  unfolding holders
  holders-twice ws i j {e} {e'} at at' ne same =
      let two = add-le-total (holds (shard_of e)) ws i j at at' ne in
      ground (
        arith,
        two,
        eq→== (shard_of e) (shard_of e) refl,
        eq→== (shard_of e') (shard_of e) (sym same),
      )

  -- The word of each lock has one writer for each worker that holds it, which are none or one.
  pub record Words {T S : Type ℓ} (c : DashMap T S) (ws : List (Worker K V)) : Type ℓ where
    pub raws :
        (i : ℕ) (s : RwLock T) → get_elem? c.shards i ≡ some s → s.raw ≡ holders i ws * one_writer
    pub single : (i : ℕ) → holders i ws ≤ 1

  pub put_shard-Words :
      {T S : Type ℓ} (c : DashMap T S) (ws ws' : List (Worker K V)) (h : ℕ) (s : RwLock T)
      → Words c ws
      → s.raw ≡ holders h ws' * one_writer
      → holders h ws' ≤ 1
      → ((i : ℕ) → h ≢ i → holders i ws' ≡ holders i ws)
      → Words (put_shard c h s) ws'
  put_shard-Words c ws ws' h s words new few others = record {
    raws = λ i r at. elim (get_elem?-set_cases c.shards h i s at) [
      | inl (hi, e) ↦ sym (ap (λ x. x.raw) e) ∙ new ∙ ap (λ (j : ℕ). holders j ws' * one_writer) hi
      | inr (ne, there) ↦ words.raws i r there ∙ ap (λ (n : ℕ). n * one_writer) (sym (others i ne))
    ];
    single = λ i. elim (ℕ_discrete h i) [
      | yes e ↦ subst (λ (j : ℕ). holders j ws' ≤ 1) e few
      | no ne ↦ omega (arith, others i ne, words.single i)
    ];
  }

module _ {ℓ} {K V S : Type ℓ} (key : Key K S) (H : HashTable (K × V)) where
  open H use {T, slots}

  -- An entry stays what it is while another shard changes.
  pub Enters-put_shard :
      (c : DashMap T S) (e : Entry K V) (i : ℕ) (s : RwLock T)
      → i ≢ shard_of e
      → Enters key H c e
      → Enters key H (put_shard c i s) e
  Enters-put_shard c e i s ne x = record {
    s = x.s;
    at = get_elem?-set_ne c.shards i (shard_of e) s ne ∙ x.at;
    own = x.own;
    made = x.made;
  }
