-- ===== src/Serde/Reading.antt =====
-- What `visit_map` makes of the entries that it is given.
use dashmap.Base.{
  ℕ, zero, suc, ◌≤◌, ◌<◌, ◌^◌, ◌≡◌, refl, Option, none, some, List, [], ◌∷◌, length, arith,
}
use dashmap.Base.Outcome.{Outcome, done, blocked, panicked, ◌>>=◌}
use dashmap.Key.{Key}
use dashmap.Table.{HashTable}
use dashmap.Map.{DashMap}
use dashmap.Map.Entry.{insert}
use dashmap.Map.Making.{extend}
use dashmap.Map.Building.{Holds, built}
use dashmap.Serde.{Result, ok, err, unwrap_or, MapAccess, visit_entries, visit_map}

-- the result of what has made `m`, and may have ended with an error
abbrev pub result {ℓ} : {E M : Type ℓ} → Option E → M → Result E M
result none m = ok m
result (some e) m = err e

module _ {ℓ} {E K V : Type ℓ} (access : MapAccess E K V) where
  open access use {Access}

  -- The entries that an access gives, and the error that it ends with, if it does.
  pub data Gives : Access → List (K × V) → Option E → Type ℓ where
    ended : {a : Access} → access.next_entry a ≡ ok none → Gives a [] none
    failed : {a : Access} {e : E} → access.next_entry a ≡ err e → Gives a [] (some e)
    another :
        {e : K × V} {es : List (K × V)} {end : Option E} {a a' : Access}
        → access.next_entry a ≡ ok (some (e, a'))
        → Gives a' es end
        → Gives a (e ∷ es) end

module _ {ℓ} {E K V S : Type ℓ} (key : Key K S) (H : HashTable (K × V))
    (access : MapAccess E K V) where
  open H use {T, slots}
  open access use {Access}

  -- The loop is `extend`, up to the error.
  visit_entries_lem :
      (n : ℕ) (a : Access) (m : DashMap T S) {es : List (K × V)} {end : Option E}
      → Gives access a es end
      → length es < n
      → visit_entries key H access n a m ≡ (extend key H m es >>= (λ m'. done (result end m')))
  unfolding visit_entries extend
  visit_entries_lem zero a m g h = absurd (omega arith)
  visit_entries_lem (suc n) a m (ended e) h = rw (visit_entries, e)
  visit_entries_lem (suc n) a m (failed e) h = rw (visit_entries, e)
  visit_entries_lem (suc n) a m {es = _ ∷ es} {end} (another {e = (k, v)} {a' = a'} e g) h =
      rw (visit_entries, e)
        (of (insert key H m k v) (λ m'. visit_entries_lem n a' m' g (omega arith)))
    where
      of :
          (r : Outcome (Option V × DashMap T S))
          → ((m' : DashMap T S)
              → visit_entries key H access n a' m'
                ≡ (extend key H m' es >>= (λ m''. done (result end m''))))
          → (r >>= (λ x. visit_entries key H access n a' x.1))
            ≡ ((r >>= (λ x. extend key H x.1 es)) >>= (λ m''. done (result end m'')))
      of (done (old, m')) later = later m'
      of blocked later = refl
      of panicked later = refl

  -- `visit_map`, where the number of processors is known and at most 2 ^ 61 and the size hint is at
  -- most 2 ^ 63, reads all entries that it is given and inserts them one after another into an
  -- empty map; it returns that map, with no lock held, at the end of the entries, and the error
  -- where the access ends with one.
  pub visit_map_lem :
      (turns parallelism : ℕ) (hasher : S) (a : Access) {es : List (K × V)} {end : Option E}
      → 1 ≤ parallelism
      → parallelism ≤ 2 ^ 61
      → unwrap_or (access.size_hint a) 0 ≤ 2 ^ 63
      → Gives access a es end
      → length es < turns
      → (m : DashMap T S) × (visit_map key H access turns (some parallelism) hasher a
          ≡ done (result end m))
        × Holds key H es m
  unfolding visit_map
  visit_map_lem turns parallelism hasher a {es} {end} low high hint gives enough =
      let (m₀, m, run, extends, holds) =
        built key H parallelism hasher low high (unwrap_or (access.size_hint a) 0) es hint in
      (m, rw (run, ◌>>=◌, visit_entries_lem turns a m₀ gives enough, extends), holds)
