-- ===== src/Rayon/Between.antt =====
-- What is true of a map and of the workers of `par_extend` between two steps.
use dashmap.Base.{
  ℕ, ◌*◌, ◌≡◌, sym, ◌∙◌, ap, subst, some, List, [], ◌++◌, map, Permᴰ, All, get_elem?,
  get_elem?-map_inv, All-get_elem?, arith,
}
use mathlib.Core.List.Permᴰ
use dashmap.Base.Outcome.{done}
use dashmap.Key.{Key}
use dashmap.Lock.Word.{one_writer}
use dashmap.Table.{HashTable}
use dashmap.Map.{DashMap}
use dashmap.Map.State.{IsValid}
use dashmap.Map.Entry.{Entry}
use dashmap.Map.Making.{extend}
use dashmap.Rayon.{Worker, waiting, inside}
use dashmap.Rayon.Released.{released, released_free, Enters}
use dashmap.Rayon.Workers.{pending, Words, pending-start, holders-start}

module _ {ℓ} {K V S : Type ℓ} (key : Key K S) (H : HashTable (K × V)) (m : DashMap H.T S)
    (pairs : List (K × V)) where
  open H use {T, slots}

  -- What is true between two steps: `order` has the pairs of the finished calls.
  pub record Between (c : DashMap T S) (ws : List (Worker K V)) : Type ℓ where
    pub order : List (K × V)
    pub ran : extend key H m order ≡ done (released c)
    pub valid : IsValid key H c
    pub perm : Permᴰ (order ++ pending ws) pairs
    pub words : Words c ws
    pub entered :
        (j : ℕ) (e : Entry K V) (v : V) → get_elem? ws j ≡ some (inside e v) → Enters key H c e

  pub start-Between :
      IsValid key H m → All (λ s. s.raw ≡ 0) m.shards → Between m (map (λ e. waiting e.0 e.1) pairs)
  unfolding extend
  start-Between valid free = record {
    order = [];
    ran = ap done (sym (released_free m free));
    valid = valid;
    perm = subst (λ l. Permᴰ l pairs) (sym (pending-start pairs)) (Permᴰ.refl pairs);
    words = record {
      raws = λ i s at.
          All-get_elem? (λ r. r.raw ≡ 0) m.shards i free at
          ∙ ap (λ (n : ℕ). n * one_writer) (sym (holders-start i pairs));
      single = λ i. omega (arith, holders-start i pairs);
    };
    entered = λ j e v at. let (a, there, bad) = get_elem?-map_inv _ pairs j at in cc;
  }
