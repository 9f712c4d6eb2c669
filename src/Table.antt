-- ===== src/Table.antt =====
-- `hashbrown::HashTable<A>`, which src/lib.rs calls and does not implement, behind what its
-- documentation says. A table files each entry under the hash that it was inserted with. A position
-- in the order of iteration stands for a reference to an entry.
pub mod Entries
use dashmap.Base.{
  ℕ, ◌+◌, ◌≤◌, ◌≡◌, Bool, true, false, Option, none, some, List, [], ◌∷◌, Permᴰ, All, length,
  get_elem?, set, if◌then◌else◌,
}

-- What `retain` leaves: the closure may change an entry, and says whether it stays.
abbrev pub kept {ℓ} : {A : Type ℓ} → (A → Bool × A) → List (ℕ × A) → List (ℕ × A)
kept f [] = []
kept f ((h, a) ∷ xs) = if (f a).0 then (h, (f a).1) ∷ kept f xs else kept f xs

pub record HashTable {ℓ} (A : Type ℓ) : Type (ℓ + 1) where
  pub T : Type ℓ
  -- the entries with their hashes, in the order of iteration
  pub slots : T → List (ℕ × A)
  pub with_capacity : ℕ → T
  -- `find`, `find_mut`, `find_entry` and the search of `entry`
  pub find : T → ℕ → (A → Bool) → Option ℕ
  -- the `insert` of a vacant entry, with the position of what it inserted
  pub insert : T → ℕ → A → (A → ℕ) → T × ℕ
  -- a write through a mutable reference
  pub write : T → ℕ → A → T
  pub remove : T → ℕ → T
  pub retain : T → (A → Bool × A) → T
  pub capacity : T → ℕ
  pub shrink_to : T → ℕ → (A → ℕ) → T
  pub try_reserve : T → ℕ → (A → ℕ) → Option T
  pub slots-with_capacity : (n : ℕ) → slots (with_capacity n) ≡ []
  pub find-some :
      (t : T) (h : ℕ) (eq : A → Bool) (i : ℕ)
      → find t h eq ≡ some i
      → (e : ℕ × A) × (get_elem? (slots t) i ≡ some e) × (eq e.1 ≡ true)
  pub find-none :
      (t : T) (h : ℕ) (eq : A → Bool)
      → find t h eq ≡ none
      → (i : ℕ) (a : A) → get_elem? (slots t) i ≡ some (h, a)
      → eq a ≡ false
  pub slots-insert :
      (t : T) (h : ℕ) (a : A) (hasher : A → ℕ)
      → All (λ e. hasher e.1 ≡ e.0) (slots t)
      → hasher a ≡ h
      → Permᴰ (slots (insert t h a hasher).0) ((h, a) ∷ slots t)
  pub insert-at :
      (t : T) (h : ℕ) (a : A) (hasher : A → ℕ)
      → get_elem? (slots (insert t h a hasher).0) (insert t h a hasher).1 ≡ some (h, a)
  pub slots-write :
      (t : T) (i h : ℕ) (a b : A)
      → get_elem? (slots t) i ≡ some (h, a)
      → slots (write t i b) ≡ set (slots t) i (h, b)
  pub slots-remove :
      (t : T) (i : ℕ) (e : ℕ × A)
      → get_elem? (slots t) i ≡ some e
      → Permᴰ (e ∷ slots (remove t i)) (slots t)
  pub slots-retain : (t : T) (f : A → Bool × A) → Permᴰ (slots (retain t f)) (kept f (slots t))
  pub length-le-capacity : (t : T) → length (slots t) ≤ capacity t
  pub le-capacity-with_capacity : (n : ℕ) → n ≤ capacity (with_capacity n)
  pub slots-shrink_to :
      (t : T) (n : ℕ) (hasher : A → ℕ)
      → All (λ e. hasher e.1 ≡ e.0) (slots t)
      → Permᴰ (slots (shrink_to t n hasher)) (slots t)
  pub slots-try_reserve :
      (t : T) (n : ℕ) (hasher : A → ℕ) (u : T)
      → All (λ e. hasher e.1 ≡ e.0) (slots t)
      → try_reserve t n hasher ≡ some u
      → Permᴰ (slots u) (slots t) × (length (slots t) + n ≤ capacity u)
