-- ===== src/HotBytes/Runs.antt =====
-- Whatever calls reach src/page/cache/hot-byte-cache.js, its books are right and its limits hold.
use aegis_stream.Prelude.Keys.{string_eq}
use aegis_stream.Prelude.OrdMap
use aegis_stream.Prelude.OrdMap.{OrdMap, total, IsMap}
use aegis_stream.Prelude.{
  ℕ, ◌≤◌, ◌<◌, ◌≡◌, refl, String, Option, none, some, List, [], ◌∷◌, ◌++◌, arith, length, ltb, leb,
  ◌||◌, Bool-cases, Option-cases, inl, inr,
}
use aegis_stream.HotBytes.Store.{
  Entry, Payload, Cache, Env, Bytes, max_entry_bytes, is_expired, evict_overflow, touch_entry,
  resolve_primary_key, clone_bytes, is_serving_enabled, build_serve_payload,
}
use aegis_stream.HotBytes.Resolving.{resolve_hot_key}
use aegis_stream.HotBytes.Methods.{
  Meta, register_put_aliases, refresh_entry, refreshed, is_fresh_twin, new_entry, forget_existing,
  add_entry, store_entry, put_cloned, put_hot_bytes, serve_entry, serve_primary, get_hot_bytes,
  check_primary, has_hot_bytes, alias_hot_bytes,
}
use aegis_stream.HotBytes.Waiters.{clear_hot_byte_cache, serve_or_join, await_hot_bytes, time_out}
use aegis_stream.HotBytes.Overflow.{Books, IsSized}
use aegis_stream.HotBytes.Kept.{
  Kept, Kept-Books, Kept-Inv, wake_key-Kept, register_put_aliases-Kept, resolve_primary_key-Kept,
  alias_hot_bytes-Kept, join_waiters-Kept, time_out-Kept, Inv,
}
use aegis_stream.HotBytes.Bounds.{
  store-Books, evict_overflow-Inv, drop_entry-Inv, touch_entry-Inv, replace-Inv,
}

store_entry-Inv :
    (env : Env) (url : Option String) (opts : Meta) (key : String) (entry : Entry) (c : Cache)
    → IsSized entry
    → Books c
    → Inv (store_entry env url opts key entry c)
unfolding store_entry
store_entry-Inv env url opts key entry c fits b =
    let stored = add_entry key entry (forget_existing key c) in
    let named = register_put_aliases env url opts key stored in
    Kept-Inv (wake_key-Kept key (build_serve_payload entry) (evict_overflow env.now named)) (
      evict_overflow-Inv env.now named (
        Kept-Books (register_put_aliases-Kept env url opts key stored)
          (store-Books key entry c fits b)))

refresh_entry-Inv :
    (env : Env) (url : Option String) (opts : Meta) (key : String) (old : Entry) (c : Cache)
    → Inv c
    → OrdMap.get key c.entries ≡ some old
    → Inv (refresh_entry env url opts key old c)
unfolding refresh_entry
refresh_entry-Inv env url opts key old c i found =
    let fits = OrdMap.get-All IsSized key c.entries i.books.sized found in
    let entry = refreshed env opts old in
    let touched = touch_entry key (record c { entries = OrdMap.set key entry c.entries }) in
    let named = register_put_aliases env url opts key touched in
    Kept-Inv (wake_key-Kept key (build_serve_payload entry) named) (
      Kept-Inv (register_put_aliases-Kept env url opts key touched)
        (replace-Inv key old entry c i found fits refl))

put_cloned-Inv :
    (env : Env) (url : Option String) (opts : Meta) (key : String) (cloned : List ℕ)
    (found : Option Entry) (c : Cache)
    → 0 < length cloned
    → length cloned ≤ max_entry_bytes
    → OrdMap.get key c.entries ≡ found
    → Inv c
    → Inv (put_cloned env url opts key cloned found c)
unfolding put_cloned
put_cloned-Inv env url opts key cloned none c nonempty fits found i =
    store_entry-Inv env url opts key (new_entry env opts cloned) c (refl, nonempty, fits) i.books
put_cloned-Inv env url opts key cloned (some old) c nonempty fits found i =
    elim (Bool-cases (is_fresh_twin env.now cloned old)) [
      | inl p ↦ rw (p, put_cloned) (refresh_entry-Inv env url opts key old c i found)
      | inr p ↦
          rw (p, put_cloned)
            (store_entry-Inv env url opts key (new_entry env opts cloned) c (refl, nonempty, fits)
              i.books)
    ]

put_hot_bytes-Inv :
    (env : Env) (url : Option String) (bytes : Bytes) (opts : Meta) (c : Cache)
    → Inv c
    → Inv (put_hot_bytes env url bytes opts c).1
unfolding put_hot_bytes
put_hot_bytes-Inv env url bytes opts c i = elim (Bool-cases (is_serving_enabled env)) [
  | inr p ↦ rw (p, put_hot_bytes) i
  | inl p ↦ elim (Option-cases (resolve_hot_key env.resolvers url opts.cache_key)) [
    | inl q ↦ rw (p, q, put_hot_bytes) i
    | inr (key, q) ↦ elim (Option-cases (clone_bytes bytes)) [
      | inl s ↦ rw (p, q, s, put_hot_bytes) i
      | inr (cloned, s) ↦
          elim (Bool-cases (leb (length cloned) 0 || ltb max_entry_bytes (length cloned))) [
            | inl t ↦ rw (p, q, s, t, put_hot_bytes) i
            | inr t ↦
                let fits : (0 < length cloned) × (length cloned ≤ max_entry_bytes) =
                  ground (arith, t) in
                rw (p, q, s, t, put_hot_bytes)
                  (put_cloned-Inv env url opts key cloned (OrdMap.get key c.entries) c fits.0 fits.1
                    refl i)
          ]
    ]
  ]
]

serve_primary-Inv : (now : ℕ) (r : Option String × Cache) → Inv r.1 → Inv (serve_primary now r).1
unfolding serve_primary serve_entry
serve_primary-Inv now (none, c) i = i
serve_primary-Inv now (some primary, c) i = elim (Option-cases (OrdMap.get primary c.entries)) [
  | inl p ↦ rw (p, serve_primary) i
  | inr (entry, p) ↦
      let touched = touch_entry-Inv primary c i in
      elim (Bool-cases (is_expired now entry)) [
        | inl q ↦
            rw (p, q, serve_primary, serve_entry)
              (drop_entry-Inv primary (touch_entry primary c) touched)
        | inr q ↦ elim (Option-cases (build_serve_payload entry)) [
          | inl s ↦
              rw (p, q, s, serve_primary, serve_entry)
                (drop_entry-Inv primary (touch_entry primary c) touched)
          | inr (payload, s) ↦ rw (p, q, s, serve_primary, serve_entry) touched
        ]
      ]
]

get_hot_bytes-Inv :
    (env : Env) (url cache_key : Option String) (c : Cache)
    → Inv c
    → Inv (get_hot_bytes env url cache_key c).1
unfolding get_hot_bytes
get_hot_bytes-Inv env url cache_key c i = elim (Bool-cases (is_serving_enabled env)) [
  | inr p ↦ rw (p, get_hot_bytes) i
  | inl p ↦
      rw (p, get_hot_bytes)
        (serve_primary-Inv env.now (resolve_primary_key env.resolvers url cache_key c)
          (Kept-Inv (resolve_primary_key-Kept env.resolvers url cache_key c) i))
]

check_primary-Inv : (now : ℕ) (r : Option String × Cache) → Inv r.1 → Inv (check_primary now r).1
unfolding check_primary
check_primary-Inv now (none, c) i = i
check_primary-Inv now (some primary, c) i = elim (Option-cases (OrdMap.get primary c.entries)) [
  | inl p ↦ rw (p, check_primary) i
  | inr (entry, p) ↦ elim (Bool-cases (is_expired now entry)) [
    | inl q ↦ rw (p, q, check_primary) (drop_entry-Inv primary c i)
    | inr q ↦ rw (p, q, check_primary) i
  ]
]

has_hot_bytes-Inv :
    (env : Env) (url cache_key : Option String) (c : Cache)
    → Inv c
    → Inv (has_hot_bytes env url cache_key c).1
unfolding has_hot_bytes
has_hot_bytes-Inv env url cache_key c i = elim (Bool-cases (is_serving_enabled env)) [
  | inr p ↦ rw (p, has_hot_bytes) i
  | inl p ↦
      rw (p, has_hot_bytes)
        (check_primary-Inv env.now (resolve_primary_key env.resolvers url cache_key c)
          (Kept-Inv (resolve_primary_key-Kept env.resolvers url cache_key c) i))
]

serve_or_join-Inv :
    (key : String) (w : ℕ) (r : Option Payload × Cache) → Inv r.1 → Inv (serve_or_join key w r)
unfolding serve_or_join
serve_or_join-Inv key w (none, c) i = Kept-Inv (join_waiters-Kept key w c) i
serve_or_join-Inv key w (some payload, c) i =
    Kept-Inv {c = c} (record { same = refl; same_total = refl; bounded = λ h. h }) i

await_hot_bytes-Inv :
    (env : Env) (url cache_key : Option String) (w : ℕ) (c : Cache)
    → Inv c
    → Inv (await_hot_bytes env url cache_key w c)
unfolding await_hot_bytes
await_hot_bytes-Inv env url cache_key w c i =
    let refused : Kept c (record c { woken = c.woken ++ (w, none) ∷ [] }) = record {
      same = refl;
      same_total = refl;
      bounded = λ h. h;
    } in
    elim (Bool-cases (is_serving_enabled env)) [
      | inr p ↦ rw (p, await_hot_bytes) (Kept-Inv refused i)
      | inl p ↦ elim (Option-cases (resolve_hot_key env.resolvers url cache_key)) [
        | inl q ↦ rw (p, q, await_hot_bytes) (Kept-Inv refused i)
        | inr (key, q) ↦
            rw (p, q, await_hot_bytes)
              (serve_or_join-Inv key w (get_hot_bytes env url cache_key c)
                (get_hot_bytes-Inv env url cache_key c i))
      ]
    ]

clear_hot_byte_cache-Inv : (c : Cache) → Inv (clear_hot_byte_cache c)
unfolding clear_hot_byte_cache
clear_hot_byte_cache-Inv c = record {
  books = record { is_map = tt; sized = tt; counted = refl };
  few = omega arith;
  small = omega arith;
  few_aliases = omega arith;
}

-- A call from outside. Each has its own flags, clock and resolvers.
pub data Call : Type 0 where
  put : Env → Option String → Bytes → Meta → Call
  get : Env → Option String → Option String → Call
  has : Env → Option String → Option String → Call
  alias : Env → Option String → Option String → Call
  await : Env → Option String → Option String → ℕ → Call
  timer : String → ℕ → Call
  clear : Call

abbrev pub apply_call : Call → Cache → Cache
apply_call (put env url bytes opts) c = (put_hot_bytes env url bytes opts c).1
apply_call (get env url cache_key) c = (get_hot_bytes env url cache_key c).1
apply_call (has env url cache_key) c = (has_hot_bytes env url cache_key c).1
apply_call (alias env from_url to_url) c = (alias_hot_bytes env from_url to_url c).1
apply_call (await env url cache_key waiter) c = await_hot_bytes env url cache_key waiter c
apply_call (timer key waiter) c = time_out key waiter c
apply_call clear c = clear_hot_byte_cache c

abbrev pub run_calls : List Call → Cache → Cache
run_calls [] c = c
run_calls (call ∷ calls) c = run_calls calls (apply_call call c)

apply_call-Inv : (call : Call) (c : Cache) → Inv c → Inv (apply_call call c)
apply_call-Inv (put env url bytes opts) c i = put_hot_bytes-Inv env url bytes opts c i
apply_call-Inv (get env url cache_key) c i = get_hot_bytes-Inv env url cache_key c i
apply_call-Inv (has env url cache_key) c i = has_hot_bytes-Inv env url cache_key c i
apply_call-Inv (alias env from_url to_url) c i =
    Kept-Inv (alias_hot_bytes-Kept env from_url to_url c) i
apply_call-Inv (await env url cache_key waiter) c i =
    await_hot_bytes-Inv env url cache_key waiter c i
apply_call-Inv (timer key waiter) c i = Kept-Inv (time_out-Kept key waiter c) i
apply_call-Inv clear c i = clear_hot_byte_cache-Inv c

-- Whatever calls run_calls, if the cache started within its limits with right books, then it ends so:
-- no key has two entries, `totalBytes` is the sum of the sizes of the entries, each entry records the
-- length of its bytes (from 1 byte to 16 MB), and at most 128 entries, 96 MB and 256 aliases are held.
pub run_calls-Inv : (calls : List Call) (c : Cache) → Inv c → Inv (run_calls calls c)
run_calls-Inv [] c i = i
run_calls-Inv (call ∷ calls) c i = run_calls-Inv calls (apply_call call c) (apply_call-Inv call c i)
