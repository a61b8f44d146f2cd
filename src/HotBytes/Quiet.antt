-- ===== src/HotBytes/Quiet.antt =====
-- The helpers of src/page/cache/hot-byte-cache.js that leave the waiters alone.
use aegis_stream.Prelude.Keys.{◌===◌, string_eq}
use aegis_stream.Prelude.OrdMap
use aegis_stream.Prelude.OrdMap.{OrdMap}
use aegis_stream.Prelude.{
  ℕ, zero, suc, ◌≡◌, refl, ◌∙◌, String, Option, none, some, [], ◌∷◌, length, Bool-cases,
  Option-cases, inl, inr,
}
use aegis_stream.HotBytes.Resolving.{Resolvers, resolve_hot_key}
use aegis_stream.HotBytes.Store.{
  Entry, Cache, Env, drop_entry, drop_expired, drop_first, drop_oldest, over_limit, is_expired,
  evict_overflow, prune_aliases, register_alias, follow_alias, resolve_primary_key, touch_entry,
  is_serving_enabled, build_serve_payload,
}
use aegis_stream.HotBytes.Methods.{
  alias_keys, alias_hot_bytes, Meta, is_other_url, register_put_aliases, forget_existing, add_entry,
  serve_entry, serve_primary, get_hot_bytes, check_primary, has_hot_bytes,
}

pub record Quiet (c d : Cache) : Type 0 where
  pub waiting : d.waiters_by_key ≡ c.waiters_by_key
  pub woken : d.woken ≡ c.woken

pub still : (c : Cache) → Quiet c c
still c = record { waiting = refl; woken = refl }

pub after : {b c d : Cache} → Quiet b c → Quiet c d → Quiet b d
after h k = record { waiting = k.waiting ∙ h.waiting; woken = k.woken ∙ h.woken }

drop_entry-Quiet : (key : String) (c : Cache) → Quiet c (drop_entry key c)
unfolding drop_entry
drop_entry-Quiet key c = elim (Option-cases (OrdMap.get key c.entries)) [
  | inl p ↦ rw (p, drop_entry) (still c)
  | inr (e, p) ↦ rw (p, drop_entry) (record { waiting = refl; woken = refl })
]

pub touch_entry-Quiet : (key : String) (c : Cache) → Quiet c (touch_entry key c)
unfolding touch_entry
touch_entry-Quiet key c = elim (Option-cases (OrdMap.get key c.entries)) [
  | inl p ↦ rw (p, touch_entry) (still c)
  | inr (e, p) ↦ rw (p, touch_entry) (record { waiting = refl; woken = refl })
]

drop_expired-Quiet :
    (now : ℕ) (m : OrdMap String Entry) (c : Cache) → Quiet c (drop_expired now m c)
unfolding drop_expired
drop_expired-Quiet now [] c = still c
drop_expired-Quiet now ((k, e) ∷ m) c = elim (Bool-cases (is_expired now e)) [
  | inl p ↦
      rw (p, drop_expired)
        (after (drop_entry-Quiet k c) (drop_expired-Quiet now m (drop_entry k c)))
  | inr p ↦ rw (p, drop_expired) (drop_expired-Quiet now m c)
]

drop_first-Quiet : (m : OrdMap String Entry) (c : Cache) → Quiet c (drop_first m c)
unfolding drop_first
drop_first-Quiet [] c = still c
drop_first-Quiet ((k, e) ∷ m) c = drop_entry-Quiet k c

drop_oldest-Quiet : (fuel : ℕ) (c : Cache) → Quiet c (drop_oldest fuel c)
unfolding drop_oldest
drop_oldest-Quiet zero c = still c
drop_oldest-Quiet (suc fuel) c = elim (Bool-cases (over_limit c)) [
  | inr p ↦ rw (p, drop_oldest) (still c)
  | inl p ↦
      rw (p, drop_oldest)
        (after (drop_first-Quiet c.entries c) (drop_oldest-Quiet fuel (drop_first c.entries c)))
]

pub evict_overflow-Quiet : (now : ℕ) (c : Cache) → Quiet c (evict_overflow now c)
unfolding evict_overflow prune_aliases
evict_overflow-Quiet now c =
    let fresh = drop_expired now c.entries c in
    let q =
      after (drop_expired-Quiet now c.entries c) (drop_oldest-Quiet (length fresh.entries) fresh) in
    record { waiting = q.waiting; woken = q.woken }

register_alias-Quiet :
    (alias : Option String) (primary : String) (c : Cache)
    → Quiet c (register_alias alias primary c)
unfolding register_alias prune_aliases
register_alias-Quiet none primary c = still c
register_alias-Quiet (some alias) primary c = elim (Bool-cases (alias === primary)) [
  | inl p ↦ rw (p, register_alias) (still c)
  | inr p ↦ rw (p, register_alias) (record { waiting = refl; woken = refl })
]

pub register_put_aliases-Quiet :
    (env : Env) (url : Option String) (opts : Meta) (key : String) (c : Cache)
    → Quiet c (register_put_aliases env url opts key c)
unfolding register_put_aliases
register_put_aliases-Quiet env url opts key c =
    let first = resolve_hot_key env.resolvers opts.alias_key none in
    let second = resolve_hot_key env.resolvers opts.page_url none in
    let k = register_alias-Quiet first key c in
    elim (Bool-cases (is_other_url opts.page_url url)) [
      | inl p ↦ rw p (after k (register_alias-Quiet second key (register_alias first key c)))
      | inr p ↦ rw p k
    ]

pub stored-Quiet :
    (key : String) (entry : Entry) (c : Cache)
    → Quiet c (add_entry key entry (forget_existing key c))
unfolding add_entry forget_existing
stored-Quiet key entry c = elim (Option-cases (OrdMap.get key c.entries)) [
  | inl p ↦ rw (p, forget_existing) (record { waiting = refl; woken = refl })
  | inr (e, p) ↦ rw (p, forget_existing) (record { waiting = refl; woken = refl })
]

follow_alias-Quiet : (key : String) (c : Cache) → Quiet c (follow_alias key c).1
unfolding follow_alias
follow_alias-Quiet key c = elim (Bool-cases (OrdMap.has key c.entries)) [
  | inl p ↦ rw (p, follow_alias) (still c)
  | inr p ↦ elim (Option-cases (OrdMap.get key c.aliases)) [
    | inl q ↦ rw (p, q, follow_alias) (still c)
    | inr (aliased, q) ↦ elim (Bool-cases (OrdMap.has aliased c.entries)) [
      | inl t ↦ rw (p, q, t, follow_alias) (still c)
      | inr t ↦ rw (p, q, t, follow_alias) (record { waiting = refl; woken = refl })
    ]
  ]
]

resolve_primary_key-Quiet :
    (r : Resolvers) (url cache_key : Option String) (c : Cache)
    → Quiet c (resolve_primary_key r url cache_key c).1
unfolding resolve_primary_key
resolve_primary_key-Quiet r url cache_key c =
    elim (Option-cases (resolve_hot_key r url cache_key)) [
      | inl p ↦ rw (p, resolve_primary_key) (still c)
      | inr (key, p) ↦ rw (p, resolve_primary_key) (follow_alias-Quiet key c)
    ]

serve_primary-Quiet : (now : ℕ) (r : Option String × Cache) → Quiet r.1 (serve_primary now r).1
unfolding serve_primary serve_entry
serve_primary-Quiet now (none, c) = still c
serve_primary-Quiet now (some primary, c) = elim (Option-cases (OrdMap.get primary c.entries)) [
  | inl p ↦ rw (p, serve_primary) (still c)
  | inr (entry, p) ↦
      let t = touch_entry-Quiet primary c in
      let gone = after t (drop_entry-Quiet primary (touch_entry primary c)) in
      elim (Bool-cases (is_expired now entry)) [
        | inl q ↦ rw (p, q, serve_primary, serve_entry) gone
        | inr q ↦ elim (Option-cases (build_serve_payload entry)) [
          | inl s ↦ rw (p, q, s, serve_primary, serve_entry) gone
          | inr (payload, s) ↦ rw (p, q, s, serve_primary, serve_entry) t
        ]
      ]
]

pub get_hot_bytes-Quiet :
    (env : Env) (url cache_key : Option String) (c : Cache)
    → Quiet c (get_hot_bytes env url cache_key c).1
unfolding get_hot_bytes
get_hot_bytes-Quiet env url cache_key c = elim (Bool-cases (is_serving_enabled env)) [
  | inr p ↦ rw (p, get_hot_bytes) (still c)
  | inl p ↦
      rw (p, get_hot_bytes)
        (after (resolve_primary_key-Quiet env.resolvers url cache_key c)
          (serve_primary-Quiet env.now (resolve_primary_key env.resolvers url cache_key c)))
]

check_primary-Quiet : (now : ℕ) (r : Option String × Cache) → Quiet r.1 (check_primary now r).1
unfolding check_primary
check_primary-Quiet now (none, c) = still c
check_primary-Quiet now (some primary, c) = elim (Option-cases (OrdMap.get primary c.entries)) [
  | inl p ↦ rw (p, check_primary) (still c)
  | inr (entry, p) ↦ elim (Bool-cases (is_expired now entry)) [
    | inl q ↦ rw (p, q, check_primary) (drop_entry-Quiet primary c)
    | inr q ↦ rw (p, q, check_primary) (still c)
  ]
]

pub has_hot_bytes-Quiet :
    (env : Env) (url cache_key : Option String) (c : Cache)
    → Quiet c (has_hot_bytes env url cache_key c).1
unfolding has_hot_bytes
has_hot_bytes-Quiet env url cache_key c = elim (Bool-cases (is_serving_enabled env)) [
  | inr p ↦ rw (p, has_hot_bytes) (still c)
  | inl p ↦
      rw (p, has_hot_bytes)
        (after (resolve_primary_key-Quiet env.resolvers url cache_key c)
          (check_primary-Quiet env.now (resolve_primary_key env.resolvers url cache_key c)))
]

alias_keys-Quiet : (from_key to_key : String) (c : Cache) → Quiet c (alias_keys from_key to_key c).1
unfolding alias_keys register_alias prune_aliases
alias_keys-Quiet from_key to_key c = elim (Bool-cases (from_key === to_key)) [
  | inl p ↦ rw (p, alias_keys) (still c)
  | inr p ↦ elim (Bool-cases (OrdMap.has to_key c.entries)) [
    | inl q ↦ rw (p, q, alias_keys) (record { waiting = refl; woken = refl })
    | inr q ↦ elim (Bool-cases (OrdMap.has from_key c.entries)) [
      | inl s ↦ rw (p, q, s, alias_keys) (register_alias-Quiet (some to_key) from_key c)
      | inr s ↦ elim (Option-cases (OrdMap.get from_key c.aliases)) [
        | inl t ↦ rw (p, q, s, t, alias_keys) (still c)
        | inr (primary, t) ↦ elim (Bool-cases (OrdMap.has primary c.entries)) [
          | inl u ↦ rw (p, q, s, t, u, alias_keys) (register_alias-Quiet (some to_key) primary c)
          | inr u ↦ rw (p, q, s, t, u, alias_keys) (still c)
        ]
      ]
    ]
  ]
]

pub alias_hot_bytes-Quiet :
    (env : Env) (from_url to_url : Option String) (c : Cache)
    → Quiet c (alias_hot_bytes env from_url to_url c).1
unfolding alias_hot_bytes
alias_hot_bytes-Quiet env from_url to_url c =
    elim (Option-cases (resolve_hot_key env.resolvers from_url none)) [
      | inl p ↦ rw (p, alias_hot_bytes) (still c)
      | inr (from_key, p) ↦ elim (Option-cases (resolve_hot_key env.resolvers to_url none)) [
        | inl q ↦ rw (p, q, alias_hot_bytes) (still c)
        | inr (to_key, q) ↦ rw (p, q, alias_hot_bytes) (alias_keys-Quiet from_key to_key c)
      ]
    ]
