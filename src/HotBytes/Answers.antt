-- ===== src/HotBytes/Answers.antt =====
-- Every waiter of src/page/cache/hot-byte-cache.js is answered at most once, and until then it waits.
use aegis_stream.Prelude.Keys.{string_eq}
use aegis_stream.Prelude.OrdMap
use aegis_stream.Prelude.OrdMap.{OrdMap, IsMap, total}
use aegis_stream.Prelude.{
  ℕ, ◌-◌, ◌≤◌, ◌≡◌, ap, ◌∙◌, String, Option, none, some, List, [], ◌∷◌, ◌++◌, arith, length,
  length-append, drop, leb, ltb, ◌||◌, Bool-cases, Option-cases, inl, inr,
}
use aegis_stream.HotBytes.Resolving.{resolve_hot_key}
use aegis_stream.HotBytes.Store.{
  Entry, Payload, Cache, Env, Bytes, max_waiter_keys, max_entry_bytes, clone_bytes,
  is_serving_enabled, evict_overflow, touch_entry, build_serve_payload,
}
use aegis_stream.HotBytes.Methods.{
  Meta, refresh_entry, refreshed, new_entry, add_entry, forget_existing, register_put_aliases,
  store_entry, put_cloned, is_fresh_twin, put_hot_bytes, get_hot_bytes,
}
use aegis_stream.HotBytes.Waiters.{prune_waiter_keys, join_waiters, serve_or_join, await_hot_bytes}
use aegis_stream.HotBytes.Quiet.{
  Quiet, still, after, touch_entry-Quiet, evict_overflow-Quiet, register_put_aliases-Quiet,
  stored-Quiet, get_hot_bytes-Quiet,
}
use aegis_stream.HotBytes.Stakes.{
  resolved, times, waiting, resolved-append, Staked, nothing, one_more, wake_key-Staked,
  prune-Staked, add_waiter-Staked,
}

pub Quiet-Staked : {c d : Cache} → Quiet c d → Staked nothing c d
Quiet-Staked q = record {
  still_map = λ h. rw q.waiting h;
  added = λ h v. omega (arith, ap (waiting v) q.waiting, ap (λ l. times v (resolved l)) q.woken);
}

follows : {b c d : Cache} {extra : ℕ → ℕ} → Staked nothing b c → Staked extra c d → Staked extra b d
follows h k = record {
  still_map = λ m. k.still_map (h.still_map m);
  added = λ m v. omega (arith, k.added (h.still_map m) v, h.added m v);
}

join_waiters-Staked :
    (key : String) (w : ℕ) (c : Cache) → Staked (one_more w) c (join_waiters key w c)
unfolding join_waiters prune_waiter_keys
join_waiters-Staked key w c = elim (Option-cases (OrdMap.get key c.waiters_by_key)) [
  | inr (ws, p) ↦ rw (p, join_waiters) (add_waiter-Staked key w ws c p)
  | inl p ↦
      let opened = record c { waiters_by_key = OrdMap.set key [] c.waiters_by_key } in
      let ends = OrdMap.set_absent key [] c.waiters_by_key p in
      let opening : Staked nothing c opened = record {
        still_map = OrdMap.set-IsMap key [] c.waiters_by_key;
        added = λ h v.
            omega
              (arith, ap (waiting v) ends, OrdMap.total-append (times v) key [] c.waiters_by_key);
      } in
      let few : length opened.waiters_by_key - max_waiter_keys ≤ length c.waiters_by_key =
        omega (arith, ap length ends, length-append c.waiters_by_key ((key, []) ∷ [])) in
      let found : OrdMap.get key (prune_waiter_keys opened).waiters_by_key ≡ some [] =
        ap (λ m. OrdMap.get key (drop (length opened.waiters_by_key - max_waiter_keys) m)) ends
        ∙ OrdMap.get-drop_last (length opened.waiters_by_key - max_waiter_keys) key []
            c.waiters_by_key few p in
      rw (p, join_waiters)
        (follows opening (
          follows (prune-Staked opened)
            (add_waiter-Staked key w [] (prune_waiter_keys opened) found)))
]

serve_or_join-Staked :
    (key : String) (w : ℕ) (r : Option Payload × Cache)
    → Staked (one_more w) r.1 (serve_or_join key w r)
unfolding serve_or_join
serve_or_join-Staked key w (none, c) = join_waiters-Staked key w c
serve_or_join-Staked key w (some payload, c) = record {
  still_map = λ h. h;
  added = λ h v. omega (arith, resolved-append v c.woken ((w, some payload) ∷ []));
}

pub await-Staked :
    (env : Env) (url cache_key : Option String) (w : ℕ) (c : Cache)
    → Staked (one_more w) c (await_hot_bytes env url cache_key w c)
unfolding await_hot_bytes
await-Staked env url cache_key w c =
    let refused : Staked (one_more w) c (record c { woken = c.woken ++ (w, none) ∷ [] }) = record {
      still_map = λ h. h;
      added = λ h v. omega (arith, resolved-append v c.woken ((w, none) ∷ []));
    } in
    elim (Bool-cases (is_serving_enabled env)) [
      | inr p ↦ rw (p, await_hot_bytes) refused
      | inl p ↦ elim (Option-cases (resolve_hot_key env.resolvers url cache_key)) [
        | inl q ↦ rw (p, q, await_hot_bytes) refused
        | inr (key, q) ↦
            rw (p, q, await_hot_bytes)
              (follows (Quiet-Staked (get_hot_bytes-Quiet env url cache_key c))
                (serve_or_join-Staked key w (get_hot_bytes env url cache_key c)))
      ]
    ]

refresh-Staked :
    (env : Env) (url : Option String) (opts : Meta) (key : String) (old : Entry) (c : Cache)
    → Staked nothing c (refresh_entry env url opts key old c)
unfolding refresh_entry
refresh-Staked env url opts key old c =
    let entry = refreshed env opts old in
    let placed = record c { entries = OrdMap.set key entry c.entries } in
    let touched = touch_entry key placed in
    let t = touch_entry-Quiet key placed in
    let named = register_put_aliases env url opts key touched in
    let q : Quiet c touched = record { waiting = t.waiting; woken = t.woken } in
    follows (Quiet-Staked (after q (register_put_aliases-Quiet env url opts key touched)))
      (wake_key-Staked key (build_serve_payload entry) named)

store-Staked :
    (env : Env) (url : Option String) (opts : Meta) (key : String) (entry : Entry) (c : Cache)
    → Staked nothing c (store_entry env url opts key entry c)
unfolding store_entry
store-Staked env url opts key entry c =
    let stored = add_entry key entry (forget_existing key c) in
    let named = register_put_aliases env url opts key stored in
    follows
      (Quiet-Staked (
        after (stored-Quiet key entry c) (
          after (register_put_aliases-Quiet env url opts key stored)
            (evict_overflow-Quiet env.now named))))
      (wake_key-Staked key (build_serve_payload entry) (evict_overflow env.now named))

put_cloned-Staked :
    (env : Env) (url : Option String) (opts : Meta) (key : String) (cloned : List ℕ)
    (found : Option Entry) (c : Cache)
    → Staked nothing c (put_cloned env url opts key cloned found c)
unfolding put_cloned
put_cloned-Staked env url opts key cloned none c =
    store-Staked env url opts key (new_entry env opts cloned) c
put_cloned-Staked env url opts key cloned (some old) c =
    elim (Bool-cases (is_fresh_twin env.now cloned old)) [
      | inl p ↦ rw (p, put_cloned) (refresh-Staked env url opts key old c)
      | inr p ↦ rw (p, put_cloned) (store-Staked env url opts key (new_entry env opts cloned) c)
    ]

pub put-Staked :
    (env : Env) (url : Option String) (bytes : Bytes) (opts : Meta) (c : Cache)
    → Staked nothing c (put_hot_bytes env url bytes opts c).1
unfolding put_hot_bytes
put-Staked env url bytes opts c = elim (Bool-cases (is_serving_enabled env)) [
  | inr p ↦ rw (p, put_hot_bytes) (Quiet-Staked (still c))
  | inl p ↦ elim (Option-cases (resolve_hot_key env.resolvers url opts.cache_key)) [
    | inl q ↦ rw (p, q, put_hot_bytes) (Quiet-Staked (still c))
    | inr (key, q) ↦ elim (Option-cases (clone_bytes bytes)) [
      | inl s ↦ rw (p, q, s, put_hot_bytes) (Quiet-Staked (still c))
      | inr (cloned, s) ↦
          elim (Bool-cases (leb (length cloned) 0 || ltb max_entry_bytes (length cloned))) [
            | inl t ↦ rw (p, q, s, t, put_hot_bytes) (Quiet-Staked (still c))
            | inr t ↦
                rw (p, q, s, t, put_hot_bytes)
                  (put_cloned-Staked env url opts key cloned (OrdMap.get key c.entries) c)
          ]
    ]
  ]
]
