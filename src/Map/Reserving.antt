-- ===== src/Map/Reserving.antt =====
-- What `try_reserve` leaves.
use dashmap.Base.{
  ℕ, zero, suc, ◌+◌, ◌*◌, ◌≤◌, ◌≡◌, refl, sym, ◌∙◌, ap, subst, ◌⊎◌, inl, inr, Bool-cases, Bool,
  true, false, some, List, [], ◌∷◌, length, All, Permᴰ, total, get_elem?, Option-cases, arith,
}
use mathlib.Core.List.Permᴰ
use dashmap.Base.Outcome.{Outcome, done, ◌>>=◌}
use dashmap.Key.{Key}
use dashmap.Lock.Alone
use dashmap.Lock.Word
use dashmap.Lock.Quiet.{lock_exclusive_lem, unlock_exclusive_lem}
use dashmap.Table.{HashTable}
use dashmap.Table.Entries.{lookup, count-perm, lookup-perm, All-perm}
use dashmap.Map.{RwLock, DashMap, rehash}
use dashmap.Map.State.{IsValid, IsShard, contents, word, entries, home, located}
use dashmap.Map.Sizes.{room}
use dashmap.Map.Retaining.{Mapped}
use dashmap.Map.Whole.{try_reserve, try_reserve_each}

module _ {ℓ} {A : Type ℓ} (H : HashTable A) where
  open H use {T, slots}

  -- shards with the same entries, and every lock free
  abbrev Resembles : List (RwLock T) → List (RwLock T) → Type ℓ
  Resembles [] [] = Unit
  Resembles (s ∷ ss) (r ∷ rs) =
      (r.raw ≡ 0) × Permᴰ (slots r.data_ptr) (slots s.data_ptr) × Resembles ss rs
  Resembles _ _ = Unit {ℓ} × ⊥

  abbrev size : List (RwLock T) → ℕ
  size ss = total (λ s. length (slots s.data_ptr)) ss

  abbrev space : List (RwLock T) → ℕ
  space ss = total (λ s. H.capacity s.data_ptr) ss

  Resembles-self : (ss : List (RwLock T)) → All (λ s. s.raw ≡ 0) ss → Resembles ss ss
  Resembles-self [] free = tt
  Resembles-self (s ∷ ss) free = (free.0, Permᴰ.refl (slots s.data_ptr), Resembles-self ss free.1)

  length-Resembles : (ss rs : List (RwLock T)) → Resembles ss rs → length rs ≡ length ss
  length-Resembles [] [] h = refl
  length-Resembles [] (r ∷ rs) h = absurd h.1
  length-Resembles (s ∷ ss) [] h = absurd h.1
  length-Resembles (s ∷ ss) (r ∷ rs) h = ap suc (length-Resembles ss rs h.2)

  Resembles-at :
      (ss rs : List (RwLock T)) (i : ℕ) (r : RwLock T)
      → Resembles ss rs
      → get_elem? rs i ≡ some r
      → (s : RwLock T) × (get_elem? ss i ≡ some s)
        × (r.raw ≡ 0)
        × Permᴰ (slots r.data_ptr) (slots s.data_ptr)
  Resembles-at [] [] i r h at = cc
  Resembles-at [] (x ∷ rs) i r h at = absurd h.1
  Resembles-at (s ∷ ss) [] i r h at = absurd h.1
  Resembles-at (s ∷ ss) (x ∷ rs) zero r h at =
      let e : x ≡ r = cc in
      (
        s,
        refl,
        subst (λ (y : RwLock T). y.raw ≡ 0) e h.0,
        subst (λ (y : RwLock T). Permᴰ (slots y.data_ptr) (slots s.data_ptr)) e h.1,
      )
  Resembles-at (s ∷ ss) (x ∷ rs) (suc i) r h at = Resembles-at ss rs i r h.2 at

  -- What the loop does with each shard.
  record Reserved (additional : ℕ) (ss : List (RwLock T)) (run : Outcome (Bool × List (RwLock T)))
      : Type ℓ where
    ok : Bool
    rs : List (RwLock T)
    runs : run ≡ done (ok, rs)
    same : Resembles ss rs
    enough : ok ≡ true → size ss + length ss * additional ≤ space rs

  locks : (s : RwLock T) → s.raw ≡ 0 → Alone.lock_exclusive s.raw ≡ done Word.one_writer
  locks s free = rw (free, lock_exclusive_lem 0 (record { fits = omega arith; no_flags = refl }))

module _ {ℓ} {K V S : Type ℓ} (key : Key K S) (H : HashTable (K × V)) where
  open H use {T, slots}

  try_reserve_each_lem :
      (hasher : K × V → ℕ) (additional : ℕ) (ss : List (RwLock T))
      → All (λ s. s.raw ≡ 0) ss
      → ((i : ℕ) (s : RwLock T)
          → get_elem? ss i ≡ some s
          → All (λ e. hasher e.1 ≡ e.0) (slots s.data_ptr))
      → Reserved H additional ss (try_reserve_each key H hasher additional ss)
  unfolding try_reserve_each total
  try_reserve_each_lem hasher additional [] free filed = record {
    ok = true;
    rs = [];
    runs = refl;
    same = tt;
    enough = λ _. omega arith;
  }
  try_reserve_each_lem hasher additional (s ∷ ss) free filed =
      elim (Option-cases (H.try_reserve s.data_ptr additional hasher)) [
        | inl failed ↦ record {
          ok = false;
          rs = record { raw = 0; data_ptr = s.data_ptr } ∷ ss;
          runs = rw (try_reserve_each, locks H s free.0, ◌>>=◌, failed, unlock_exclusive_lem);
          same = (refl, Permᴰ.refl (slots s.data_ptr), Resembles-self H ss free.1);
          enough = λ fine. cc;
        }
        | inr (t, made) ↦
            let later =
              try_reserve_each_lem hasher additional ss free.1 (λ i r at. filed (suc i) r at) in
            let (perm, fits) =
              H.slots-try_reserve s.data_ptr additional hasher t (filed 0 s refl) made in
            record {
              ok = later.ok;
              rs = record { raw = 0; data_ptr = t } ∷ later.rs;
              runs = rw (
                try_reserve_each,
                locks H s free.0,
                ◌>>=◌,
                made,
                later.runs,
                unlock_exclusive_lem,
              );
              same = (refl, perm, later.same);
              enough = λ fine.
                  let split : suc (length ss) * additional ≡ additional + length ss * additional =
                    omega arith in
                  omega (arith, fits, later.enough fine, split);
            }
      ]

  module _ (m : DashMap T S) (valid : IsValid key H m) (free : All (λ s. s.raw ≡ 0) m.shards)
      (rs : List (RwLock T)) (same : Resembles H m.shards rs) where
    abbrev after : DashMap T S
    after = record m { shards = rs }

    after-IsShard :
        (i : ℕ) (r : RwLock T)
        → get_elem? rs i ≡ some r
        → IsShard key H m.hasher m.shift i r.data_ptr
    after-IsShard i r at =
        let (s, there, _, p) = Resembles-at H m.shards rs i r same at in
        let ok = valid.shard i s there in
        record {
          filed = All-perm _ p ok.filed;
          placed = All-perm _ p ok.placed;
          once = λ q. omega (arith, count-perm key q p, ok.once q);
        }

    after-IsValid : IsValid key H after
    after-IsValid = record {
      bits = valid.bits;
      few = valid.few;
      some_shards = valid.some_shards;
      shifts = valid.shifts;
      width = length-Resembles H m.shards rs same ∙ valid.width;
      quiet = λ i r at.
          let (_, _, unlocked, _) = Resembles-at H m.shards rs i r same at in
          record { fits = rw unlocked (omega arith); no_flags = rw unlocked };
      shard = after-IsShard;
    }

    after-Mapped : Mapped key H m valid free (λ x. x) after
    unfolding word
    after-Mapped = record {
      valid' = after-IsValid;
      reads = λ q.
          let l = located key H after q after-IsValid in
          let (s, there, _, p) = Resembles-at H m.shards rs (home key H m q) l.s same l.at in
          let ok = valid.shard (home key H m q) s there in
          l.holds
          ∙ lookup-perm key q p (omega (arith, count-perm key q p, ok.once q))
          ∙ held q s there;
      words = λ q.
          let l = located key H after q after-IsValid in
          let (_, _, unlocked, _) = Resembles-at H m.shards rs (home key H m q) l.s same l.at in
          l.locked ∙ unlocked;
    }
      where
        held :
            (q : K) (s : RwLock T)
            → get_elem? m.shards (home key H m q) ≡ some s
            → lookup key q (slots s.data_ptr) ≡ contents key H m q
        held q s there =
            let l = located key H m q valid in
            let one : some s ≡ some l.s = sym there ∙ l.at in
            let e : s ≡ l.s = cc in ap (λ r. lookup key q (slots r.data_ptr)) e ∙ sym l.holds

  -- `try_reserve` on a valid map that nobody holds a lock of returns, and changes nothing that the
  -- map holds, also where a table refuses; where it reports no error, the tables have room for all
  -- entries and for as many more in each shard as it was asked for.
  pub try_reserve_lem :
      (m : DashMap T S) (valid : IsValid key H m) (free : All (λ s. s.raw ≡ 0) m.shards)
      (additional : ℕ)
      → (ok : Bool) × (m' : DashMap T S) × (try_reserve key H m additional ≡ done (ok, m'))
        × Mapped key H m valid free (λ x. x) m'
        × ((ok ≡ false) ⊎ (entries key H m + length m.shards * additional ≤ room key H m'))
  unfolding try_reserve entries room
  try_reserve_lem m valid free additional =
      let each =
        try_reserve_each_lem (rehash key H m) additional m.shards free
          (λ i s at. (valid.shard i s at).filed) in
      (
        each.ok,
        record m { shards = each.rs },
        rw (each.runs, ◌>>=◌),
        after-Mapped m valid free each.rs each.same,
        elim (Bool-cases each.ok) [ inl fine ↦ inr (each.enough fine) | inr refused ↦ inl refused ],
      )
