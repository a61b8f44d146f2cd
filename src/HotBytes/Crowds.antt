-- ===== src/HotBytes/Crowds.antt =====
-- How many waiters src/page/cache/hot-byte-cache.js keeps: the limits on keys and on a key's waiters.
use aegis_stream.Prelude.Keys.{◌===◌, string_eq}
use aegis_stream.Prelude.OrdMap
use aegis_stream.Prelude.OrdMap.{OrdMap}
use aegis_stream.Prelude.{
  ℕ, zero, suc, ◌-◌, ◌≤◌, ◌≡◌, ap, ◌∙◌, String, Option, none, some, List, [], ◌∷◌, ◌++◌, arith, All,
  length, length-append, length-drop_excess, length-retain-le, drop, not, ◌==◌, leb, Bool-cases,
  Option-cases, inl, inr,
}
use aegis_stream.HotBytes.Store.{
  Payload, Cache, max_waiters_per_key, max_waiter_keys, wake_waiters, wake_aliases,
}
use aegis_stream.HotBytes.Methods.{wake_key}
use aegis_stream.HotBytes.Waiters.{
  prune_waiter_keys, add_waiter, join_waiters, remove_waiter, holds_waiter, put_back, time_out,
}
use aegis_stream.HotBytes.Quiet.{Quiet}

abbrev pub IsShort : String × List ℕ → Type 0
IsShort (key, waiters) = length waiters ≤ max_waiters_per_key

-- At most 64 keys are waited for, by at most 32 waiters each.
pub record Crowd (m : OrdMap String (List ℕ)) : Type 0 where
  pub few_keys : length m ≤ max_waiter_keys
  pub short : All IsShort m

All-drop : (n : ℕ) (m : OrdMap String (List ℕ)) → All IsShort m → All IsShort (drop n m)
All-drop zero m h = h
All-drop (suc n) [] h = h
All-drop (suc n) (x ∷ m) h = All-drop n m h.1

length-set :
    (key : String) (ws : List ℕ) (m : OrdMap String (List ℕ)) {us : List ℕ}
    → OrdMap.get key m ≡ some us
    → length (OrdMap.set key ws m) ≡ length m
unfolding OrdMap.get OrdMap.set
length-set key ws [] {us = us} h = absurd (ground (arith, h))
length-set key ws ((k, vs) ∷ m) {us = us} h = ground (arith, length-set key ws m {us = us})

delete-Crowd : (key : String) (m : OrdMap String (List ℕ)) → Crowd m → Crowd (OrdMap.delete key m)
delete-Crowd key m h = record {
  few_keys = omega (arith, OrdMap.length-delete-le key m, h.few_keys);
  short = OrdMap.delete-All IsShort key m h.short;
}

set-Crowd :
    (key : String) (ws us : List ℕ) (m : OrdMap String (List ℕ))
    → OrdMap.get key m ≡ some us
    → length ws ≤ max_waiters_per_key
    → Crowd m
    → Crowd (OrdMap.set key ws m)
set-Crowd key ws us m found fits h = record {
  few_keys = omega (arith, length-set key ws m {us = us} found, h.few_keys);
  short = OrdMap.set-All IsShort key ws m (λ k. fits) h.short;
}

wake_waiters-Crowd :
    (key : String) (p : Option Payload) (c : Cache)
    → Crowd c.waiters_by_key
    → Crowd (wake_waiters key p c).waiters_by_key
unfolding wake_waiters
wake_waiters-Crowd key payload c h = elim (Option-cases (OrdMap.get key c.waiters_by_key)) [
  | inl p ↦ rw (p, wake_waiters) h
  | inr (ws, p) ↦ rw (p, wake_waiters) (delete-Crowd key c.waiters_by_key h)
]

wake_aliases-Crowd :
    (key : String) (p : Option Payload) (m : OrdMap String String) (c : Cache)
    → Crowd c.waiters_by_key
    → Crowd (wake_aliases key p m c).waiters_by_key
unfolding wake_aliases
wake_aliases-Crowd key payload [] c h = h
wake_aliases-Crowd key payload ((other, primary) ∷ m) c h = elim (Bool-cases (primary === key)) [
  | inr p ↦ rw (p, wake_aliases) (wake_aliases-Crowd key payload m c h)
  | inl p ↦
      rw (p, wake_aliases)
        (wake_aliases-Crowd key payload m (wake_waiters other payload c)
          (wake_waiters-Crowd other payload c h))
]

pub wake_key-Crowd :
    (key : String) (p : Option Payload) (c : Cache)
    → Crowd c.waiters_by_key
    → Crowd (wake_key key p c).waiters_by_key
unfolding wake_key
wake_key-Crowd key none c h = h
wake_key-Crowd key (some payload) c h =
    let served = wake_waiters key (some payload) c in
    wake_aliases-Crowd key (some payload) served.aliases served
      (wake_waiters-Crowd key (some payload) c h)

pub Quiet-Crowd : {c d : Cache} → Quiet c d → Crowd c.waiters_by_key → Crowd d.waiters_by_key
Quiet-Crowd q h = rw q.waiting h

add_waiter-Crowd :
    (key : String) (w : ℕ) (ws : List ℕ) (c : Cache)
    → OrdMap.get key c.waiters_by_key ≡ some ws
    → Crowd c.waiters_by_key
    → Crowd (add_waiter key w ws c).waiters_by_key
unfolding add_waiter
add_waiter-Crowd key w ws c found h = elim (Bool-cases (leb max_waiters_per_key (length ws))) [
  | inl p ↦ rw (p, add_waiter) h
  | inr p ↦
      let fits : length (ws ++ w ∷ []) ≤ max_waiters_per_key =
        ground (arith, p, length-append ws (w ∷ [])) in
      rw (p, add_waiter) (set-Crowd key (ws ++ w ∷ []) ws c.waiters_by_key found fits h)
]

pub join_waiters-Crowd :
    (key : String) (w : ℕ) (c : Cache)
    → Crowd c.waiters_by_key
    → Crowd (join_waiters key w c).waiters_by_key
unfolding join_waiters prune_waiter_keys
join_waiters-Crowd key w c h = elim (Option-cases (OrdMap.get key c.waiters_by_key)) [
  | inr (ws, p) ↦ rw (p, join_waiters) (add_waiter-Crowd key w ws c p h)
  | inl p ↦
      let m = OrdMap.set key [] c.waiters_by_key in
      let opened = record c { waiters_by_key = m } in
      let ends = OrdMap.set_absent key [] c.waiters_by_key p in
      let few : length m - max_waiter_keys ≤ length c.waiters_by_key =
        omega (arith, ap length ends, length-append c.waiters_by_key ((key, []) ∷ [])) in
      let found : OrdMap.get key (prune_waiter_keys opened).waiters_by_key ≡ some [] =
        ap (λ l. OrdMap.get key (drop (length m - max_waiter_keys) l)) ends
        ∙ OrdMap.get-drop_last (length m - max_waiter_keys) key [] c.waiters_by_key few p in
      let pruned : Crowd (prune_waiter_keys opened).waiters_by_key = record {
        few_keys = length-drop_excess max_waiter_keys m;
        short =
            All-drop (length m - max_waiter_keys) m
              (OrdMap.set-All IsShort key [] c.waiters_by_key (λ k. omega arith) h.short);
      } in
      rw (p, join_waiters) (add_waiter-Crowd key w [] (prune_waiter_keys opened) found pruned)
]

length-remove_waiter : (w : ℕ) (ws : List ℕ) → length (remove_waiter w ws) ≤ length ws
length-remove_waiter w ws = length-retain-le (λ v. not (v == w)) ws

put_back-Crowd :
    (key : String) (us ws : List ℕ) (m : OrdMap String (List ℕ))
    → OrdMap.get key m ≡ some ws
    → length us ≤ length ws
    → Crowd m
    → Crowd (put_back key us m)
put_back-Crowd key [] ws m found shorter h = delete-Crowd key m h
put_back-Crowd key (u ∷ us) ws m found shorter h =
    let old : length ws ≤ max_waiters_per_key =
      OrdMap.get-All (λ l. length l ≤ max_waiters_per_key) key m {v = ws} h.short found in
    set-Crowd key (u ∷ us) ws m found (omega (arith, old, shorter)) h

pub time_out-Crowd :
    (key : String) (w : ℕ) (c : Cache)
    → Crowd c.waiters_by_key
    → Crowd (time_out key w c).waiters_by_key
unfolding time_out
time_out-Crowd key w c h = elim (Option-cases (OrdMap.get key c.waiters_by_key)) [
  | inl p ↦ rw (p, time_out) h
  | inr (ws, p) ↦ elim (Bool-cases (holds_waiter w ws)) [
    | inr q ↦ rw (p, q, time_out) h
    | inl q ↦
        rw (p, q, time_out)
          (put_back-Crowd key (remove_waiter w ws) ws c.waiters_by_key p (length-remove_waiter w ws)
            h)
  ]
]
