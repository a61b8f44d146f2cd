-- ===== src/HotBytes/Crowded.antt =====
-- Whatever calls reach src/page/cache/hot-byte-cache.js, the limits on its waiters hold.
use aegis_stream.Prelude.Keys.{string_eq}
use aegis_stream.Prelude.OrdMap
use aegis_stream.Prelude.{
  ℕ, String, Option, none, some, List, [], ◌∷◌, arith, length, leb, ltb, ◌||◌, Bool-cases,
  Option-cases, inl, inr,
}
use aegis_stream.HotBytes.Resolving.{resolve_hot_key}
use aegis_stream.HotBytes.Store.{
  Entry, Payload, Cache, Env, Bytes, max_entry_bytes, clone_bytes, is_serving_enabled,
  evict_overflow, touch_entry, build_serve_payload,
}
use aegis_stream.HotBytes.Methods.{
  Meta, refresh_entry, refreshed, new_entry, add_entry, forget_existing, register_put_aliases,
  store_entry, put_cloned, is_fresh_twin, put_hot_bytes, get_hot_bytes,
}
use aegis_stream.HotBytes.Waiters.{clear_hot_byte_cache, serve_or_join, await_hot_bytes}
use aegis_stream.HotBytes.Quiet.{
  Quiet, after, touch_entry-Quiet, evict_overflow-Quiet, register_put_aliases-Quiet, stored-Quiet,
  get_hot_bytes-Quiet, has_hot_bytes-Quiet, alias_hot_bytes-Quiet,
}
use aegis_stream.HotBytes.Runs.{
  Call, put, get, has, alias, await, timer, clear, apply_call, run_calls,
}
use aegis_stream.HotBytes.Crowds.{
  Crowd, wake_key-Crowd, Quiet-Crowd, join_waiters-Crowd, time_out-Crowd,
}

-- The waiters of a cache are within their limits.
abbrev pub Crowded : Cache → Type 0
Crowded c = Crowd c.waiters_by_key

serve_or_join-Crowded :
    (key : String) (w : ℕ) (r : Option Payload × Cache)
    → Crowded r.1
    → Crowded (serve_or_join key w r)
unfolding serve_or_join
serve_or_join-Crowded key w (none, c) h = join_waiters-Crowd key w c h
serve_or_join-Crowded key w (some payload, c) h = h

await-Crowded :
    (env : Env) (url cache_key : Option String) (w : ℕ) (c : Cache)
    → Crowded c
    → Crowded (await_hot_bytes env url cache_key w c)
unfolding await_hot_bytes
await-Crowded env url cache_key w c h = elim (Bool-cases (is_serving_enabled env)) [
  | inr p ↦ rw (p, await_hot_bytes) h
  | inl p ↦ elim (Option-cases (resolve_hot_key env.resolvers url cache_key)) [
    | inl q ↦ rw (p, q, await_hot_bytes) h
    | inr (key, q) ↦
        rw (p, q, await_hot_bytes)
          (serve_or_join-Crowded key w (get_hot_bytes env url cache_key c)
            (Quiet-Crowd (get_hot_bytes-Quiet env url cache_key c) h))
  ]
]

refresh-Crowded :
    (env : Env) (url : Option String) (opts : Meta) (key : String) (old : Entry) (c : Cache)
    → Crowded c
    → Crowded (refresh_entry env url opts key old c)
unfolding refresh_entry
refresh-Crowded env url opts key old c h =
    let entry = refreshed env opts old in
    let placed = record c { entries = OrdMap.set key entry c.entries } in
    let touched = touch_entry key placed in
    let t = touch_entry-Quiet key placed in
    let named = register_put_aliases env url opts key touched in
    let q : Quiet c touched = record { waiting = t.waiting; woken = t.woken } in
    wake_key-Crowd key (build_serve_payload entry) named
      (Quiet-Crowd (after q (register_put_aliases-Quiet env url opts key touched)) h)

store-Crowded :
    (env : Env) (url : Option String) (opts : Meta) (key : String) (entry : Entry) (c : Cache)
    → Crowded c
    → Crowded (store_entry env url opts key entry c)
unfolding store_entry
store-Crowded env url opts key entry c h =
    let stored = add_entry key entry (forget_existing key c) in
    let named = register_put_aliases env url opts key stored in
    let q = after (stored-Quiet key entry c) (
      after (register_put_aliases-Quiet env url opts key stored)
        (evict_overflow-Quiet env.now named)) in
    wake_key-Crowd key (build_serve_payload entry) (evict_overflow env.now named) (Quiet-Crowd q h)

put_cloned-Crowded :
    (env : Env) (url : Option String) (opts : Meta) (key : String) (cloned : List ℕ)
    (found : Option Entry) (c : Cache)
    → Crowded c
    → Crowded (put_cloned env url opts key cloned found c)
unfolding put_cloned
put_cloned-Crowded env url opts key cloned none c h =
    store-Crowded env url opts key (new_entry env opts cloned) c h
put_cloned-Crowded env url opts key cloned (some old) c h =
    elim (Bool-cases (is_fresh_twin env.now cloned old)) [
      | inl p ↦ rw (p, put_cloned) (refresh-Crowded env url opts key old c h)
      | inr p ↦ rw (p, put_cloned) (store-Crowded env url opts key (new_entry env opts cloned) c h)
    ]

put-Crowded :
    (env : Env) (url : Option String) (bytes : Bytes) (opts : Meta) (c : Cache)
    → Crowded c
    → Crowded (put_hot_bytes env url bytes opts c).1
unfolding put_hot_bytes
put-Crowded env url bytes opts c h = elim (Bool-cases (is_serving_enabled env)) [
  | inr p ↦ rw (p, put_hot_bytes) h
  | inl p ↦ elim (Option-cases (resolve_hot_key env.resolvers url opts.cache_key)) [
    | inl q ↦ rw (p, q, put_hot_bytes) h
    | inr (key, q) ↦ elim (Option-cases (clone_bytes bytes)) [
      | inl s ↦ rw (p, q, s, put_hot_bytes) h
      | inr (cloned, s) ↦
          elim (Bool-cases (leb (length cloned) 0 || ltb max_entry_bytes (length cloned))) [
            | inl t ↦ rw (p, q, s, t, put_hot_bytes) h
            | inr t ↦
                rw (p, q, s, t, put_hot_bytes)
                  (put_cloned-Crowded env url opts key cloned (OrdMap.get key c.entries) c h)
          ]
    ]
  ]
]

clear-Crowded : (c : Cache) → Crowded (clear_hot_byte_cache c)
unfolding clear_hot_byte_cache
clear-Crowded c = record { few_keys = omega arith; short = tt }

apply_call-Crowded : (call : Call) (c : Cache) → Crowded c → Crowded (apply_call call c)
apply_call-Crowded (put env url bytes opts) c h = put-Crowded env url bytes opts c h
apply_call-Crowded (get env url cache_key) c h =
    Quiet-Crowd (get_hot_bytes-Quiet env url cache_key c) h
apply_call-Crowded (has env url cache_key) c h =
    Quiet-Crowd (has_hot_bytes-Quiet env url cache_key c) h
apply_call-Crowded (alias env from_url to_url) c h =
    Quiet-Crowd (alias_hot_bytes-Quiet env from_url to_url c) h
apply_call-Crowded (await env url cache_key waiter) c h = await-Crowded env url cache_key waiter c h
apply_call-Crowded (timer key waiter) c h = time_out-Crowd key waiter c h
apply_call-Crowded clear c h = clear-Crowded c

-- If the cache starts with at most 64 keys waited for and at most 32 waiters on each of them, then
-- it ends so after any calls, puts, timers and clears included.
pub run_calls-Crowded : (calls : List Call) (c : Cache) → Crowded c → Crowded (run_calls calls c)
run_calls-Crowded [] c h = h
run_calls-Crowded (call ∷ calls) c h =
    run_calls-Crowded calls (apply_call call c) (apply_call-Crowded call c h)
