-- ===== src/Map/Altered.antt =====
-- What the loop of `alter_all` makes of the table of one shard.
use dashmap.Base.{
  ℕ, zero, suc, ◌+◌, ◌≡◌, refl, sym, ◌∙◌, ap, Option, none, some, List, [], ◌∷◌, map, length,
  length-set, get_elem?, get_elem?_within, set, map_from, map_from_end, map_from_step, All,
  Bool-cases, inl, inr, arith,
}
use mathlib.Core.Option
use dashmap.Key.{Key}
use dashmap.Shards
use dashmap.Table.{HashTable}
use dashmap.Table.Entries.{lookup, count}
use dashmap.Map.State.{IsShard}

module _ {ℓ} {K V : Type ℓ} (H : HashTable (K × V)) (f : K → V → V) where
  open H use {T, slots}

  abbrev pub altered_slot : ℕ × (K × V) → ℕ × (K × V)
  altered_slot e = (e.0, (e.1.0, f e.1.0 e.1.1))

  -- one turn, at position `p`
  abbrev pub altered_at : ℕ → T → T
  altered_at p t = elim (get_elem? (slots t) p) [
    | none ↦ t
    | some e ↦ H.write t p (e.1.0, f e.1.0 e.1.1)
  ]

  -- `q` turns, from position `p` on
  unfoldable pub altered_from : ℕ → ℕ → T → T
  altered_from zero p t = t
  altered_from (suc q) p t = altered_from q (suc p) (altered_at p t)

  abbrev pub altered : T → T
  altered t = altered_from (length (slots t)) 0 t

  pub slots-altered_at :
      (p : ℕ) (t : T) {e : ℕ × (K × V)}
      → get_elem? (slots t) p ≡ some e
      → slots (altered_at p t) ≡ set (slots t) p (altered_slot e)
  slots-altered_at p t {e} at =
      rw (at, altered_at) (H.slots-write t p e.0 e.1 (e.1.0, f e.1.0 e.1.1) at)

  slots-altered_from :
      (q p : ℕ) (t : T)
      → p + q ≡ length (slots t)
      → slots (altered_from q p t) ≡ map_from p altered_slot (slots t)
  unfolding altered_from
  slots-altered_from zero p t h = sym (map_from_end p altered_slot (slots t) (omega arith))
  slots-altered_from (suc q) p t h =
      let (e, at) = get_elem?_within (slots t) p (omega arith) in
      let slots_now = slots-altered_at p t at in
      let many : length (slots (altered_at p t)) ≡ length (slots t) =
        ap length slots_now ∙ length-set (slots t) p (altered_slot e) in
      slots-altered_from q (suc p) (altered_at p t) (omega (arith, many))
      ∙ ap (map_from (suc p) altered_slot) slots_now
      ∙ sym (map_from_step p altered_slot (slots t) at)

  pub slots-altered : (t : T) → slots (altered t) ≡ map altered_slot (slots t)
  slots-altered t = slots-altered_from (length (slots t)) 0 t (omega arith)

module _ {ℓ} {K V S : Type ℓ} (key : Key K S) (H : HashTable (K × V)) (f : K → V → V) where
  open H use {T, slots}

  -- the pair with its value altered
  abbrev pub altered_pair : Option (K × V) → Option (K × V)
  altered_pair x = Option.map (λ e. (e.0, f e.0 e.1)) x

  lookup-map :
      (q : K) (xs : List (ℕ × (K × V)))
      → lookup key q (map (altered_slot H f) xs) ≡ altered_pair (lookup key q xs)
  unfolding lookup
  lookup-map q [] = refl
  lookup-map q ((h, (k, v)) ∷ xs) = elim (Bool-cases (key.equal q k)) [
    | inl same ↦ rw same
    | inr differ ↦ rw differ (lookup-map q xs)
  ]

  count-map :
      (q : K) (xs : List (ℕ × (K × V))) → count key q (map (altered_slot H f) xs) ≡ count key q xs
  unfolding count
  count-map q [] = refl
  count-map q ((h, (k, v)) ∷ xs) = rw (count-map q xs)

  All-map {κ} :
      (P : ℕ → K → Type κ) (xs : List (ℕ × (K × V)))
      → All (λ e. P e.0 e.1.0) xs
      → All (λ e. P e.0 e.1.0) (map (altered_slot H f) xs)
  All-map P [] h = h
  All-map P (x ∷ xs) h = (h.0, All-map P xs h.1)

  pub altered-IsShard :
      (hasher : S) (shift i : ℕ) (t : T)
      → IsShard key H hasher shift i t
      → IsShard key H hasher shift i (altered H f t)
  altered-IsShard hasher shift i t ok = record {
    filed = rw (slots-altered H f t) (All-map (λ h k. key.hash hasher k ≡ h) (slots t) ok.filed);
    placed =
        rw (slots-altered H f t)
          (All-map (λ h k. Shards.shard_index shift h ≡ i) (slots t) ok.placed);
    once = λ q. rw (slots-altered H f t, count-map q (slots t)) (ok.once q);
  }

  pub lookup-altered :
      (t : T) (q : K) → lookup key q (slots (altered H f t)) ≡ altered_pair (lookup key q (slots t))
  lookup-altered t q = rw (slots-altered H f t) (lookup-map q (slots t))
