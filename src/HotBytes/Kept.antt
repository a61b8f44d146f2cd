-- ===== src/HotBytes/Kept.antt =====
-- The helpers of src/page/cache/hot-byte-cache.js that leave the entries alone.
use aegis_stream.Prelude.Keys.{◌===◌, string_eq}
use aegis_stream.Prelude.OrdMap
use aegis_stream.Prelude.OrdMap.{OrdMap, total, IsMap}
use aegis_stream.Prelude.{
  ℕ, ◌≤◌, ◌≡◌, refl, sym, ap, ◌∙◌, String, Option, none, some, List, [], ◌∷◌, arith, length, leb,
  Bool-cases, Option-cases, inl, inr,
}
use aegis_stream.HotBytes.Store.{
  Payload, Cache, Env, max_entries, max_bytes, max_waiters_per_key, max_aliases, prune_aliases,
  register_alias, resolve_primary_key, follow_alias, wake_waiters, wake_aliases,
}
use aegis_stream.HotBytes.Resolving.{Resolvers, resolve_hot_key}
use aegis_stream.HotBytes.Methods.{
  Meta, is_other_url, wake_key, register_put_aliases, alias_keys, alias_hot_bytes,
}
use aegis_stream.HotBytes.Waiters.{
  holds_waiter, prune_waiter_keys, add_waiter, join_waiters, time_out,
}
use aegis_stream.HotBytes.Overflow.{Books, bytes_held, aliases-prune_aliases}

-- The books are right and no limit is passed.
pub record Inv (c : Cache) : Type 0 where
  pub books : Books c
  pub few : length c.entries ≤ max_entries
  pub small : c.total_bytes ≤ max_bytes
  pub few_aliases : length c.aliases ≤ max_aliases

-- The entries are left alone, and the aliases stay few.
pub record Kept (c d : Cache) : Type 0 where
  pub same : d.entries ≡ c.entries
  pub same_total : d.total_bytes ≡ c.total_bytes
  pub bounded : length c.aliases ≤ max_aliases → length d.aliases ≤ max_aliases

pub Kept-refl : (c : Cache) → Kept c c
Kept-refl c = record { same = refl; same_total = refl; bounded = λ h. h }

pub Kept-trans : {b c d : Cache} → Kept b c → Kept c d → Kept b d
Kept-trans h k = record {
  same = k.same ∙ h.same;
  same_total = k.same_total ∙ h.same_total;
  bounded = λ few. k.bounded (h.bounded few);
}

pub Kept-Books : {c d : Cache} → Kept c d → Books c → Books d
Kept-Books k b = record {
  is_map = rw k.same b.is_map;
  sized = rw k.same b.sized;
  counted = k.same_total ∙ b.counted ∙ ap bytes_held (sym k.same);
}

pub Kept-Inv : {c d : Cache} → Kept c d → Inv c → Inv d
Kept-Inv k i = record {
  books = Kept-Books k i.books;
  few = omega (arith, i.few, ap length k.same);
  small = omega (arith, i.small, k.same_total);
  few_aliases = k.bounded i.few_aliases;
}

pub wake_waiters-Kept :
    (key : String) (p : Option Payload) (c : Cache) → Kept c (wake_waiters key p c)
unfolding wake_waiters
wake_waiters-Kept key payload c = elim (Option-cases (OrdMap.get key c.waiters_by_key)) [
  | inl p ↦ rw (p, wake_waiters) (Kept-refl c)
  | inr (ws, p) ↦ rw (p, wake_waiters) (record { same = refl; same_total = refl; bounded = λ h. h })
]

pub wake_aliases-Kept :
    (key : String) (p : Option Payload) (m : OrdMap String String) (c : Cache)
    → Kept c (wake_aliases key p m c)
unfolding wake_aliases
wake_aliases-Kept key payload [] c = Kept-refl c
wake_aliases-Kept key payload ((alias, primary) ∷ m) c = elim (Bool-cases (primary === key)) [
  | inl p ↦ rw p (
      Kept-trans (wake_waiters-Kept alias payload c)
        (wake_aliases-Kept key payload m (wake_waiters alias payload c)))
  | inr p ↦ rw p (wake_aliases-Kept key payload m c)
]

pub wake_key-Kept : (key : String) (p : Option Payload) (c : Cache) → Kept c (wake_key key p c)
unfolding wake_key
wake_key-Kept key none c = Kept-refl c
wake_key-Kept key (some payload) c =
    let served = wake_waiters key (some payload) c in
    Kept-trans (wake_waiters-Kept key (some payload) c)
      (wake_aliases-Kept key (some payload) served.aliases served)

pub prune_aliases-Kept : (c : Cache) → Kept c (prune_aliases c)
unfolding prune_aliases
prune_aliases-Kept c = record {
  same = refl;
  same_total = refl;
  bounded = λ h. aliases-prune_aliases c;
}

-- Pruning bounds the aliases whatever they were before.
pub set_alias-Kept :
    (alias primary : String) (c : Cache)
    → Kept c (prune_aliases (record c { aliases = OrdMap.set alias primary c.aliases }))
set_alias-Kept alias primary c =
    let named = record c { aliases = OrdMap.set alias primary c.aliases } in
    record {
      same = (prune_aliases-Kept named).same;
      same_total = (prune_aliases-Kept named).same_total;
      bounded = λ h. aliases-prune_aliases named;
    }

pub register_alias-Kept :
    (alias : Option String) (primary : String) (c : Cache) → Kept c (register_alias alias primary c)
unfolding register_alias
register_alias-Kept none primary c = Kept-refl c
register_alias-Kept (some alias) primary c = elim (Bool-cases (alias === primary)) [
  | inl p ↦ rw p (Kept-refl c)
  | inr p ↦ rw p (set_alias-Kept alias primary c)
]

pub register_put_aliases-Kept :
    (env : Env) (url : Option String) (opts : Meta) (key : String) (c : Cache)
    → Kept c (register_put_aliases env url opts key c)
unfolding register_put_aliases
register_put_aliases-Kept env url opts key c =
    let first = resolve_hot_key env.resolvers opts.alias_key none in
    let second = resolve_hot_key env.resolvers opts.page_url none in
    let k = register_alias-Kept first key c in
    elim (Bool-cases (is_other_url opts.page_url url)) [
      | inl p ↦ rw p (Kept-trans k (register_alias-Kept second key (register_alias first key c)))
      | inr p ↦ rw p k
    ]

pub follow_alias-Kept : (key : String) (c : Cache) → Kept c (follow_alias key c).1
unfolding follow_alias
follow_alias-Kept key c = elim (Bool-cases (OrdMap.has key c.entries)) [
  | inl p ↦ rw (p, follow_alias) (Kept-refl c)
  | inr p ↦ elim (Option-cases (OrdMap.get key c.aliases)) [
    | inl q ↦ rw (p, q, follow_alias) (Kept-refl c)
    | inr (aliased, q) ↦ elim (Bool-cases (OrdMap.has aliased c.entries)) [
      | inl t ↦ rw (p, q, t, follow_alias) (Kept-refl c)
      | inr t ↦
          rw (p, q, t, follow_alias)
            (record {
              same = refl;
              same_total = refl;
              bounded = λ h. omega (arith, h, OrdMap.length-delete-le key c.aliases);
            })
    ]
  ]
]

pub resolve_primary_key-Kept :
    (r : Resolvers) (url cache_key : Option String) (c : Cache)
    → Kept c (resolve_primary_key r url cache_key c).1
unfolding resolve_primary_key
resolve_primary_key-Kept r url cache_key c = elim (Option-cases (resolve_hot_key r url cache_key)) [
  | inl p ↦ rw (p, resolve_primary_key) (Kept-refl c)
  | inr (key, p) ↦ rw (p, resolve_primary_key) (follow_alias-Kept key c)
]

pub alias_keys-Kept :
    (from_key to_key : String) (c : Cache) → Kept c (alias_keys from_key to_key c).1
unfolding alias_keys
alias_keys-Kept from_key to_key c = elim (Bool-cases (from_key === to_key)) [
  | inl p ↦ rw (p, alias_keys) (Kept-refl c)
  | inr p ↦ elim (Bool-cases (OrdMap.has to_key c.entries)) [
    | inl q ↦ rw (p, q, alias_keys) (set_alias-Kept from_key to_key c)
    | inr q ↦ elim (Bool-cases (OrdMap.has from_key c.entries)) [
      | inl s ↦ rw (p, q, s, alias_keys) (register_alias-Kept (some to_key) from_key c)
      | inr s ↦ elim (Option-cases (OrdMap.get from_key c.aliases)) [
        | inl t ↦ rw (p, q, s, t, alias_keys) (Kept-refl c)
        | inr (primary, t) ↦ elim (Bool-cases (OrdMap.has primary c.entries)) [
          | inl u ↦ rw (p, q, s, t, u, alias_keys) (register_alias-Kept (some to_key) primary c)
          | inr u ↦ rw (p, q, s, t, u, alias_keys) (Kept-refl c)
        ]
      ]
    ]
  ]
]

pub alias_hot_bytes-Kept :
    (env : Env) (from_url to_url : Option String) (c : Cache)
    → Kept c (alias_hot_bytes env from_url to_url c).1
unfolding alias_hot_bytes
alias_hot_bytes-Kept env from_url to_url c =
    elim (Option-cases (resolve_hot_key env.resolvers from_url none)) [
      | inl p ↦ rw (p, alias_hot_bytes) (Kept-refl c)
      | inr (from_key, p) ↦ elim (Option-cases (resolve_hot_key env.resolvers to_url none)) [
        | inl q ↦ rw (p, q, alias_hot_bytes) (Kept-refl c)
        | inr (to_key, q) ↦ rw (p, q, alias_hot_bytes) (alias_keys-Kept from_key to_key c)
      ]
    ]

pub add_waiter-Kept :
    (key : String) (w : ℕ) (ws : List ℕ) (c : Cache) → Kept c (add_waiter key w ws c)
unfolding add_waiter
add_waiter-Kept key w ws c = elim (Bool-cases (leb max_waiters_per_key (length ws))) [
  | inl p ↦ rw (p, add_waiter) (record { same = refl; same_total = refl; bounded = λ h. h })
  | inr p ↦ rw (p, add_waiter) (record { same = refl; same_total = refl; bounded = λ h. h })
]

pub join_waiters-Kept : (key : String) (w : ℕ) (c : Cache) → Kept c (join_waiters key w c)
unfolding join_waiters prune_waiter_keys
join_waiters-Kept key w c = elim (Option-cases (OrdMap.get key c.waiters_by_key)) [
  | inl p ↦
      let opened = record c { waiters_by_key = OrdMap.set key [] c.waiters_by_key } in
      rw (p, join_waiters)
        (let k = add_waiter-Kept key w [] (prune_waiter_keys opened) in
          record { same = k.same; same_total = k.same_total; bounded = k.bounded })
  | inr (ws, p) ↦ rw (p, join_waiters) (add_waiter-Kept key w ws c)
]

pub time_out-Kept : (key : String) (w : ℕ) (c : Cache) → Kept c (time_out key w c)
unfolding time_out
time_out-Kept key w c = elim (Option-cases (OrdMap.get key c.waiters_by_key)) [
  | inl p ↦ rw (p, time_out) (Kept-refl c)
  | inr (ws, p) ↦ elim (Bool-cases (holds_waiter w ws)) [
    | inl q ↦ rw (p, q, time_out) (record { same = refl; same_total = refl; bounded = λ h. h })
    | inr q ↦ rw (p, q, time_out) (Kept-refl c)
  ]
]
