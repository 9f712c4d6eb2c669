-- ===== src/Map/Extending.antt =====
-- What `extend` leaves under a key.
use dashmap.Base.{
  ◌≡◌, refl, ◌∙◌, ap, inl, inr, Option, none, some, List, [], ◌∷◌, if◌then◌else◌, Bool-cases,
}
use dashmap.Base.Outcome.{done, ◌>>=◌}
use dashmap.Key.{Key}
use dashmap.Table.{HashTable}
use dashmap.Map.{DashMap}
use dashmap.Map.State.{IsValid, contents, word}
use dashmap.Map.Updates.{contents_congr}
use dashmap.Map.Inserting.{key_under, insert_lem}
use dashmap.Map.Making.{extend}

module _ {ℓ} {K V S : Type ℓ} (key : Key K S) where
  -- the key that an insert leaves
  abbrev pub first : Option (K × V) → K → K
  first none k = k
  first (some e) k = e.0

  -- What a sequence of inserts leaves under a key, from what was there: the value of the last pair
  -- with an equal key, under the first of these keys.
  unfoldable pub inserted : K → Option (K × V) → List (K × V) → Option (K × V)
  inserted q x [] = x
  inserted q x ((k, v) ∷ pairs) =
      inserted q (if key.equal q k then some (first x k, v) else x) pairs

module _ {ℓ} {K V S : Type ℓ} (key : Key K S) (H : HashTable (K × V)) where
  open H use {T, slots}

  first_under :
      (m : DashMap T S) (k : K) (valid : IsValid key H m) (x : Option (K × V))
      → key_under key H m k valid x ≡ first key x k
  first_under m k valid none = refl
  first_under m k valid (some e) = refl

  -- `extend` on a valid map that nobody holds a lock of returns a valid map that nobody holds a
  -- lock of, which has under each key what the pairs inserted in their order leave there: the value
  -- of the last pair with an equal key, under the first of these keys.
  pub extend_lem :
      (pairs : List (K × V)) (m : DashMap T S)
      → IsValid key H m
      → ((q : K) → word key H m q ≡ 0)
      → (m' : DashMap T S) × (extend key H m pairs ≡ done m')
        × IsValid key H m'
        × ((q : K) → word key H m' q ≡ 0)
        × ((q : K) → contents key H m' q ≡ inserted key q (contents key H m q) pairs)
  unfolding extend inserted
  extend_lem [] m valid free = (m, refl, valid, free, λ q. refl)
  extend_lem ((k, v) ∷ pairs) m valid free =
      let (m₁, run, u) = insert_lem key H m k valid v (free k) in
      let (m', rest, valid', free', reads) =
        extend_lem pairs m₁ u.valid (λ q. u.words q ∙ free q) in
      (
        m',
        rw (run, ◌>>=◌) rest,
        valid',
        free',
        λ q.
            reads q
            ∙ ap (λ x. inserted key q x pairs)
                (elim (Bool-cases (key.equal q k)) [
                  | inl same ↦
                      rw (u.reads q, same, contents_congr key H m q k valid same)
                        (ap (λ j. some (j, v)) (first_under m k valid (contents key H m k)))
                  | inr differ ↦ rw (u.reads q, differ)
                ]),
      )
