-- ===== src/HotBytes/Stakes.antt =====
-- The waiters of src/page/cache/hot-byte-cache.js are counted: none is lost, none resolved twice.
use aegis_stream.Prelude.Keys.{◌===◌, string_eq}
use aegis_stream.Prelude.OrdMap
use aegis_stream.Prelude.OrdMap.{OrdMap, IsMap, total}
use aegis_stream.Prelude.{
  ℕ, ◌+◌, ◌-◌, ◌≡◌, refl, ap, String, Option, none, some, List, [], ◌∷◌, ◌++◌, arith, length, take,
  leb, ℕ_discrete, count, count-append, Bool-cases, Option-cases, inl, inr,
}
use aegis_stream.HotBytes.Store.{
  Payload, Cache, max_waiters_per_key, max_waiter_keys, resolve_all, wake_waiters, wake_aliases,
}
use aegis_stream.HotBytes.Methods.{wake_key}
use aegis_stream.HotBytes.Waiters.{cancel_all, clear_hot_byte_cache, prune_waiter_keys, add_waiter}

abbrev pub resolved : List (ℕ × Option Payload) → List ℕ
resolved [] = []
resolved ((waiter, payload) ∷ rest) = waiter ∷ resolved rest

-- How often a waiter stands in a list, and among all the lists of the keys.
abbrev pub times : ℕ → List ℕ → ℕ
times waiter = count ℕ_discrete waiter

abbrev pub waiting : ℕ → OrdMap String (List ℕ) → ℕ
waiting waiter = total λ waiters. times waiter waiters

-- How often a waiter stands anywhere: waiting, or resolved.
abbrev pub stakes : ℕ → Cache → ℕ
stakes waiter c = waiting waiter c.waiters_by_key + times waiter (resolved c.woken)

pub resolved-append :
    (v : ℕ) (xs ys : List (ℕ × Option Payload))
    → times v (resolved (xs ++ ys)) ≡ times v (resolved xs) + times v (resolved ys)
resolved-append v [] ys = omega arith
resolved-append v ((w, p) ∷ xs) ys = ground (arith, resolved-append v xs ys)

resolved-resolve_all : (ws : List ℕ) (p : Option Payload) → resolved (resolve_all ws p) ≡ ws
resolved-resolve_all [] p = refl
resolved-resolve_all (w ∷ ws) p = ap (λ l. w ∷ l) (resolved-resolve_all ws p)

resolved-cancel_all :
    (v : ℕ) (m : OrdMap String (List ℕ)) → times v (resolved (cancel_all m)) ≡ waiting v m
unfolding cancel_all
resolved-cancel_all v [] = refl
resolved-cancel_all v ((k, ws) ∷ m) = omega (
  arith,
  resolved-append v (resolve_all ws none) (cancel_all m),
  ap (times v) (resolved-resolve_all ws none),
  resolved-cancel_all v m,
)

-- A step from one cache to another that keeps the map a map, and adds `extra v` stakes of `v`.
pub record Staked (extra : ℕ → ℕ) (c d : Cache) : Type 0 where
  pub still_map : IsMap c.waiters_by_key → IsMap d.waiters_by_key
  pub added : IsMap c.waiters_by_key → (v : ℕ) → stakes v d ≡ stakes v c + extra v

abbrev pub nothing : ℕ → ℕ
nothing v = 0

abbrev pub one_more : ℕ → ℕ → ℕ
one_more w v = times v (w ∷ [])

wake_waiters-Staked :
    (key : String) (p : Option Payload) (c : Cache) → Staked nothing c (wake_waiters key p c)
unfolding wake_waiters
wake_waiters-Staked key payload c = elim (Option-cases (OrdMap.get key c.waiters_by_key)) [
  | inl p ↦ rw (p, wake_waiters) (record { still_map = λ h. h; added = λ h v. omega arith })
  | inr (ws, p) ↦
      rw (p, wake_waiters)
        (record {
          still_map = OrdMap.delete-IsMap key c.waiters_by_key;
          added = λ h v. omega (
            arith,
            OrdMap.total-delete (times v) key c.waiters_by_key {v = ws} h p,
            resolved-append v c.woken (resolve_all ws payload),
            ap (times v) (resolved-resolve_all ws payload),
          );
        })
]

pub wake_aliases-Staked :
    (key : String) (p : Option Payload) (m : OrdMap String String) (c : Cache)
    → Staked nothing c (wake_aliases key p m c)
unfolding wake_aliases
wake_aliases-Staked key payload [] c = record { still_map = λ h. h; added = λ h v. omega arith }
wake_aliases-Staked key payload ((alias, primary) ∷ m) c = elim (Bool-cases (primary === key)) [
  | inr p ↦ rw (p, wake_aliases) (wake_aliases-Staked key payload m c)
  | inl p ↦
      let first = wake_waiters-Staked alias payload c in
      let rest = wake_aliases-Staked key payload m (wake_waiters alias payload c) in
      rw (p, wake_aliases)
        (record {
          still_map = λ h. rest.still_map (first.still_map h);
          added = λ h v. omega (arith, rest.added (first.still_map h) v, first.added h v);
        })
]

pub wake_key-Staked :
    (key : String) (p : Option Payload) (c : Cache) → Staked nothing c (wake_key key p c)
unfolding wake_key
wake_key-Staked key none c = record { still_map = λ h. h; added = λ h v. omega arith }
wake_key-Staked key (some payload) c =
    let served = wake_waiters key (some payload) c in
    let first = wake_waiters-Staked key (some payload) c in
    let rest = wake_aliases-Staked key (some payload) served.aliases served in
    record {
      still_map = λ h. rest.still_map (first.still_map h);
      added = λ h v. omega (arith, rest.added (first.still_map h) v, first.added h v);
    }

pub clear-Staked : (c : Cache) → Staked nothing c (clear_hot_byte_cache c)
unfolding clear_hot_byte_cache
clear-Staked c = record {
  still_map = λ h. tt;
  added = λ h v. omega (
    arith,
    resolved-append v c.woken (cancel_all c.waiters_by_key),
    resolved-cancel_all v c.waiters_by_key,
  );
}

pub prune-Staked : (c : Cache) → Staked nothing c (prune_waiter_keys c)
unfolding prune_waiter_keys
prune-Staked c =
    let n = length c.waiters_by_key - max_waiter_keys in
    record {
      still_map = OrdMap.drop-IsMap n c.waiters_by_key;
      added = λ h v. omega (
        arith,
        resolved-append v c.woken (cancel_all (take n c.waiters_by_key)),
        resolved-cancel_all v (take n c.waiters_by_key),
        OrdMap.total-drop (times v) n c.waiters_by_key,
      );
    }

pub add_waiter-Staked :
    (key : String) (w : ℕ) (ws : List ℕ) (c : Cache)
    → OrdMap.get key c.waiters_by_key ≡ some ws
    → Staked (one_more w) c (add_waiter key w ws c)
unfolding add_waiter
add_waiter-Staked key w ws c found = elim (Bool-cases (leb max_waiters_per_key (length ws))) [
  | inl p ↦
      rw (p, add_waiter)
        (record {
          still_map = λ h. h;
          added = λ h v. omega (arith, resolved-append v c.woken ((w, none) ∷ []));
        })
  | inr p ↦
      rw (p, add_waiter)
        (record {
          still_map = OrdMap.set-IsMap key (ws ++ w ∷ []) c.waiters_by_key;
          added = λ h v. omega (
            arith,
            OrdMap.total-set (times v) key (ws ++ w ∷ []) c.waiters_by_key {u = ws} found,
            count-append ℕ_discrete v ws (w ∷ []),
          );
        })
]
