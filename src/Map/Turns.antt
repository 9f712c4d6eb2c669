-- ===== src/Map/Turns.antt =====
-- A turn of the loop of `alter_all`, and the turns after it.
use dashmap.Base.{
  ℕ, zero, suc, ◌+◌, ◌-◌, ◌≤◌, ◌<◌, ◌≡◌, refl, sym, ◌∙◌, ap, subst, inl, inr, Option, none, some,
  List, [], ◌∷◌, length, total, get_elem?, drop-set, get_elem?-set_self, get_elem?-set_cases,
  lt_of_get_elem?, length-set, arith,
}
use dashmap.Base.Outcome.{done, ◌>>=◌}
use dashmap.Table.{HashTable}
use dashmap.Map.{RwLock, DashMap, put_shard}
use dashmap.Map.Guards.{shard_at-put_shard, put_shard-put_shard}
use dashmap.Map.IterMut.{set_multi, alter_all_from}
use dashmap.Map.Altered.{altered_at, altered_from, altered_slot, slots-altered_at}
use dashmap.Map.Altering.{taken, work, IsFree, Holds, finished}

module _ {ℓ} {A : Type ℓ} where
  pub past : (xs : List A) (p : ℕ) → get_elem? xs p ≡ none → length xs ≤ p
  past [] p h = omega arith
  past (x ∷ xs) zero h = cc
  past (x ∷ xs) (suc p) h = omega (arith, past xs p h)

module _ {ℓ} {K V : Type ℓ} (H : HashTable (K × V)) (f : K → V → V) where
  open H use {T, slots}

  -- shard `s` after a turn at position `p`, with its lock free
  abbrev pub turned : ℕ → RwLock T → RwLock T
  turned p s = record { raw = 0; data_ptr = altered_at H f p s.data_ptr }

  length-altered_at :
      (p : ℕ) (t : T) {e : ℕ × (K × V)}
      → get_elem? (slots t) p ≡ some e
      → length (slots (altered_at H f p t)) ≡ length (slots t)
  length-altered_at p t {e} at =
      ap length (slots-altered_at H f p t at) ∙ length-set (slots t) p (altered_slot H f e)

module _ {ℓ} {K V S : Type ℓ} (H : HashTable (K × V)) (f : K → V → V) where
  open H use {T, slots}

  -- the entries of the current shard that are still to come
  abbrev pub left :
      (m : DashMap T S) (i : ℕ) (current : Option (ℕ × ℕ)) (m' : DashMap T S)
      → Holds H f m i current m'
      → ℕ
  left m i none m' h = 0
  left m i (some (j, p)) m' h = length (slots h.0.data_ptr) - p

  abbrev pub result :
      (m : DashMap T S) (i : ℕ) (current : Option (ℕ × ℕ)) (m' : DashMap T S)
      → Holds H f m i current m'
      → DashMap T S
  result m i none m' h = finished H f i m
  result m i (some (j, p)) m' h = finished H f i (
      put_shard m j (record {
        raw = 0;
        data_ptr = altered_from H f (length (slots h.0.data_ptr) - p) p h.0.data_ptr;
      }))

module _ {ℓ} {K V : Type ℓ} (S : Type ℓ) (H : HashTable (K × V)) (f : K → V → V) where
  open H use {T, slots}

  -- `n` turns come to the end.
  abbrev pub Main : ℕ → Type ℓ
  Main n =
      (m : DashMap T S) (i : ℕ) (current : Option (ℕ × ℕ)) (m' : DashMap T S)
      → IsFree H f m
      → (h : Holds H f m i current m') → i ≤ length m.shards
      → left H f m i current m' h + work H i m.shards < n
      → alter_all_from H n (record { shards = i; current = current }) f m'
        ≡ done (result H f m i current m' h)

module _ {ℓ} {K V S : Type ℓ} (H : HashTable (K × V)) (f : K → V → V) where
  open H use {T, slots}

  -- the write of a turn
  pub write_turn :
      (m : DashMap T S) (j p : ℕ) (s : RwLock T) (e : ℕ × (K × V))
      → get_elem? m.shards j ≡ some s
      → get_elem? (slots s.data_ptr) p ≡ some e
      → set_multi H
          (record { guard = j; pos = p; k = e.1.0; v = e.1.1 })
          (f e.1.0 e.1.1)
          (put_shard m j (taken s))
        ≡ done (put_shard (put_shard m j (turned H f p s)) j (taken (turned H f p s)))
  unfolding set_multi
  write_turn m j p s e at here =
      rw (shard_at-put_shard m j s at (taken s), ◌>>=◌, altered_at, here)
        (ap done (
          put_shard-put_shard m j s at (taken s)
            (taken (record { raw = 0; data_ptr = H.write s.data_ptr p (e.1.0, f e.1.0 e.1.1) }))
          ∙ sym (
              put_shard-put_shard m j s at
                (record { raw = 0; data_ptr = H.write s.data_ptr p (e.1.0, f e.1.0 e.1.1) })
                (taken
                  (record { raw = 0; data_ptr = H.write s.data_ptr p (e.1.0, f e.1.0 e.1.1) })))))

  put_shard-IsFree :
      (m : DashMap T S) (j : ℕ) (s : RwLock T)
      → s.raw ≡ 0
      → IsFree H f m
      → IsFree H f (put_shard m j s)
  put_shard-IsFree m j s zero_word free i r at = elim (get_elem?-set_cases m.shards j i s at) [
    | inl (_, e) ↦ subst (λ (x : RwLock T). x.raw ≡ 0) e zero_word
    | inr (_, there) ↦ free i r there
  ]

  -- The turns after one at position `p` of shard `j`.
  pub after :
      (n : ℕ)
      → Main S H f n
      → (m : DashMap T S) (j p i : ℕ) (s : RwLock T) (e : ℕ × (K × V)) → IsFree H f m
      → get_elem? m.shards j ≡ some s
      → j < i
      → i ≤ length m.shards
      → get_elem? (slots s.data_ptr) p ≡ some e
      → length (slots s.data_ptr) - p + work H i m.shards < suc n
      → alter_all_from H n
          (record { shards = i; current = some (j, suc p) })
          f
          (put_shard (put_shard m j (turned H f p s)) j (taken (turned H f p s)))
        ≡ done (
            finished H f i (
              put_shard m j (record {
                raw = 0;
                data_ptr = altered_from H f (length (slots s.data_ptr) - p) p s.data_ptr;
              })))
  unfolding altered_from
  after n later m j p i s e free at below within here small =
      let t = s.data_ptr in
      let m₁ = put_shard m j (turned H f p s) in
      let at₁ = get_elem?-set_self m.shards j (turned H f p s) (lt_of_get_elem? m.shards j at) in
      let many = length-altered_at H f p t here in
      let inside = lt_of_get_elem? (slots t) p here in
      let fuel : length (slots t) - p ≡ suc (length (slots t) - suc p) = omega arith in
      let same_work : work H i m₁.shards ≡ work H i m.shards =
        ap (total (λ s. length (slots s.data_ptr)))
          (drop-set i j m.shards (turned H f p s) below) in
      let whole : i ≤ length m₁.shards = omega (arith, length-set m.shards j (turned H f p s)) in
      let run =
        later m₁ i (some (j, suc p)) (put_shard m₁ j (taken (turned H f p s)))
          (put_shard-IsFree m j (turned H f p s) refl free) (turned H f p s, at₁, below, refl) whole
          (omega (arith, many, same_work)) in
      let final : RwLock T = record {
        raw = 0;
        data_ptr = altered_from H f (length (slots t) - suc p) (suc p) (altered_at H f p t);
      } in
      rw (many) at run
      ∙ ap (λ x. done (finished H f i x)) (put_shard-put_shard m j s at (turned H f p s) final)
      ∙ ap
          (λ (q : ℕ). done (
            finished H f i (put_shard m j (record { raw = 0; data_ptr = altered_from H f q p t }))))
          (sym fuel)
