-- ===== src/Concurrent/Abstract/Refines.antt =====
-- The threads do what calls on a function from keys to pairs do.
use dashmap.Base.{
  ℕ, ◌≡◌, refl, sym, ◌∙◌, ap, subst, fun_ext, Option-cases, some, inl, inr, List, [], ◌∷◌, map, All,
  get_elem?, set,
}
use dashmap.Base.Outcome.{Outcome-cases, done, ◌>>=◌}
use dashmap.Key.{Key}
use dashmap.Table.{HashTable}
use dashmap.Map.{DashMap}
use dashmap.Map.State.{IsValid, contents, word}
use dashmap.Map.Loops.{contents-everywhere}
use dashmap.Rayon.Released.{released, word-released, released_free}
use dashmap.Concurrent.{
  Call, Thread, outside, inside, leaving, Threads, run, call_next, one_by_one, start,
}
use dashmap.Concurrent.Seen.{seen_thread}
use dashmap.Concurrent.Between.{start-Between}
use dashmap.Concurrent.Runs.{effects, run-Ran, linearizable}
use dashmap.Concurrent.Abstract.{Holdings, specified, spec_next, by_spec}
use dashmap.Concurrent.Abstract.Replies.{invoke-Replies}

module _ {ℓ} {K V S : Type ℓ} (key : Key K S) (H : HashTable (K × V)) where
  open H use {T, slots}

  -- a whole call of a thread
  record Next (w w' : Thread T K V) (m m' : DashMap T S) : Type ℓ where
    spec : spec_next key w (contents key H m) ≡ some (w', contents key H m')
    valid' : IsValid key H m'
    free' : (q : K) → word key H m' q ≡ 0

  call_next-Next :
      (w : Thread T K V) (m : DashMap T S) {w' : Thread T K V} {m' : DashMap T S}
      → IsValid key H m
      → ((q : K) → word key H m q ≡ 0)
      → call_next key H w m ≡ done (w', m')
      → Next w w' m m'
  unfolding call_next spec_next
  call_next-Next (outside [] rs) m valid free h = cc
  call_next-Next (outside (c ∷ cs) rs) m {w'} {m'} valid free h =
      let x = invoke-Replies key H m valid free c in
      let now = rw (x.runs, ◌>>=◌) at h in
      let same_m : x.m' ≡ m' = cc in
      let w₁ : Thread T K V = outside cs ((specified key c (contents key H m)).0 ∷ rs) in
      let same_w : w₁ ≡ w' = cc in
      let first : Next (outside (c ∷ cs) rs) w₁ m x.m' = record {
        spec = ap (λ (g : Holdings K V). some (w₁, g)) (sym x.holds);
        valid' = x.valid';
        free' = x.free';
      } in
      subst (λ u. Next (outside (c ∷ cs) rs) u m m') same_w
        (subst (λ y. Next (outside (c ∷ cs) rs) w₁ m y) same_m first)
  call_next-Next (inside c idx t cs rs) m valid free h = cc
  call_next-Next (leaving c idx cs rs) m valid free h = cc

  -- Whole calls do what is specified.
  pub one_by_one-by_spec :
      (turns : List ℕ) (p : Threads T S K V) {q : Threads T S K V}
      → IsValid key H p.map
      → ((k : K) → word key H p.map k ≡ 0)
      → one_by_one key H turns p ≡ done q
      → by_spec key turns (contents key H p.map) p.threads ≡ some (contents key H q.map, q.threads)
  unfolding one_by_one by_spec
  one_by_one-by_spec [] p {q} valid free h =
      let same : p ≡ q = cc in
      ap (λ (x : Threads T S K V). some (contents key H x.map, x.threads)) same
  one_by_one-by_spec (i ∷ turns) p {q} valid free h = elim (Option-cases (get_elem? p.threads i)) [
    | inl out ↦ let bad = rw (one_by_one, out) at h in cc
    | inr (w, at) ↦ elim (Outcome-cases (call_next key H w p.map)) [
      | inr (inl waits) ↦ let bad = rw (one_by_one, at, ◌>>=◌, waits) at h in cc
      | inr (inr fails) ↦ let bad = rw (one_by_one, at, ◌>>=◌, fails) at h in cc
      | inl ((w', m'), goes) ↦
          let x = call_next-Next w p.map valid free goes in
          let p' : Threads T S K V = record { map = m'; threads = set p.threads i w' } in
          let later : one_by_one key H turns p' ≡ done q = rw (one_by_one, at, ◌>>=◌, goes) at h in
          rw (by_spec, at, x.spec) (one_by_one-by_spec turns p' x.valid' x.free' later)
    ]
  ]

module _ {ℓ} {K V S : Type ℓ} (key : Key K S) (H : HashTable (K × V)) (m : DashMap H.T S)
    (valid : IsValid key H m) (free : All (λ s. s.raw ≡ 0) m.shards) where
  open H use {T, slots}

  contents-released :
      (c : DashMap T S) → IsValid key H c → contents key H (released c) ≡ contents key H c
  contents-released c ok =
      fun_ext
        (contents-everywhere key H c ok (λ t. t) (λ x. x) (λ i t fine. fine) (λ i t q fine. refl))

  all_free : (q : K) → word key H m q ≡ 0
  all_free q = ap (λ x. word key H x q) (sym (released_free m free)) ∙ word-released key H m valid q

  -- However the steps of threads that call `get`, `contains_key`, `insert`, `remove`, `remove_if`,
  -- `remove_if_mut` and `alter` on one valid map interleave, of which nobody held a lock at the start:
  -- all replies, and what the map holds under each key, are what the calls give on a function from
  -- keys to pairs, where each is one change at the point at which its work was done.
  pub threads_refine :
      (programs : List (List (Call K V))) (turns : List ℕ) {p : Threads T S K V}
      → run key H turns (start m programs) ≡ done p
      → by_spec key
          (effects key H turns (start m programs))
          (contents key H m)
          (start m programs).threads
        ≡ some (contents key H p.map, map seen_thread p.threads)
  threads_refine programs turns {p} h =
      let order = effects key H turns (start m programs) in
      let r =
        run-Ran key H turns (start m programs) (start-Between key H m programs valid free) h in
      one_by_one-by_spec key H order (start m programs) valid all_free
        (linearizable key H m valid free programs turns h).0
      ∙ ap (λ (g : Holdings K V). some (g, map seen_thread p.threads))
          (contents-released p.map r.between.valid)
