-- ===== src/HotBytes/Waiters.antt =====
-- The waiters of src/page/cache/hot-byte-cache.js, and what clears all of it.
use aegis_stream.Prelude.Keys.{string_eq}
use aegis_stream.Prelude.OrdMap
use aegis_stream.Prelude.OrdMap.{OrdMap}
use aegis_stream.Prelude.{
  ℕ, ◌-◌, String, Bool, false, not, ◌||◌, Option, none, some, List, [], ◌∷◌, ◌++◌, leb, ◌==◌,
  if◌then◌else◌, length, take, drop, retain, max, positive_or,
}
use aegis_stream.HotBytes.Store.{
  Payload, Cache, Env, max_waiters_per_key, max_waiter_keys, is_serving_enabled, resolve_all,
}
use aegis_stream.HotBytes.Resolving.{resolve_hot_key}
use aegis_stream.HotBytes.Methods.{get_hot_bytes}

-- Every waiter of every key is resolved with null.
unfoldable pub cancel_all : OrdMap String (List ℕ) → List (ℕ × Option Payload)
cancel_all [] = []
cancel_all ((key, waiters) ∷ rest) = resolve_all waiters none ++ cancel_all rest

unfoldable pub clear_hot_byte_cache : Cache → Cache
unfolding cancel_all
clear_hot_byte_cache c = record {
  entries = [];
  aliases = [];
  total_bytes = 0;
  waiters_by_key = [];
  woken = c.woken ++ cancel_all c.waiters_by_key;
}

-- `while (waitersByKey.size > MAX_WAITER_KEYS)`: the oldest keys go, their waiters with null.
unfoldable pub prune_waiter_keys : Cache → Cache
unfolding cancel_all
prune_waiter_keys c = record c {
  waiters_by_key = drop (length c.waiters_by_key - max_waiter_keys) c.waiters_by_key;
  woken = c.woken ++ cancel_all (take (length c.waiters_by_key - max_waiter_keys) c.waiters_by_key);
}

unfoldable pub add_waiter : String → ℕ → List ℕ → Cache → Cache
add_waiter key waiter waiters c =
    if leb max_waiters_per_key (length waiters)
    then record c { woken = c.woken ++ (waiter, none) ∷ [] }
    else record c { waiters_by_key = OrdMap.set key (waiters ++ waiter ∷ []) c.waiters_by_key }

unfoldable pub join_waiters : String → ℕ → Cache → Cache
unfolding prune_waiter_keys add_waiter
join_waiters key waiter c = elim (OrdMap.get key c.waiters_by_key) [
  | some waiters ↦ add_waiter key waiter waiters c
  | none ↦
      let opened = record c { waiters_by_key = OrdMap.set key [] c.waiters_by_key } in
      add_waiter key waiter [] (prune_waiter_keys opened)
]

unfoldable pub serve_or_join : String → ℕ → Option Payload × Cache → Cache
unfolding join_waiters
serve_or_join key waiter (some payload, c) = record c {
  woken = c.woken ++ (waiter, some payload) ∷ [];
}
serve_or_join key waiter (none, c) = join_waiters key waiter c

-- `awaitHotBytes`, up to the promise: `waiter` is the number of the promise, which is resolved at
-- once or left to a put, to its timer, or to a clear.
unfoldable pub await_hot_bytes : Env → Option String → Option String → ℕ → Cache → Cache
unfolding is_serving_enabled resolve_hot_key get_hot_bytes serve_or_join
await_hot_bytes env key_or_url cache_key waiter c =
    if is_serving_enabled env
    then elim (resolve_hot_key env.resolvers key_or_url cache_key) [
      | none ↦ record c { woken = c.woken ++ (waiter, none) ∷ [] }
      | some key ↦ serve_or_join key waiter (get_hot_bytes env key_or_url cache_key c)
    ]
    else record c { woken = c.woken ++ (waiter, none) ∷ [] }

abbrev pub remove_waiter : ℕ → List ℕ → List ℕ
remove_waiter waiter = retain λ w. not (w == waiter)

abbrev pub holds_waiter : ℕ → List ℕ → Bool
holds_waiter waiter [] = false
holds_waiter waiter (w ∷ ws) = w == waiter || holds_waiter waiter ws

-- The key goes with its last waiter.
abbrev pub put_back : String → List ℕ → OrdMap String (List ℕ) → OrdMap String (List ℕ)
put_back key [] m = OrdMap.delete key m
put_back key (w ∷ ws) m = OrdMap.set key (w ∷ ws) m

-- The timer of a waiter that has not been resolved: `finish(null)`.
unfoldable pub time_out : String → ℕ → Cache → Cache
time_out key waiter c = elim (OrdMap.get key c.waiters_by_key) [
  | none ↦ c
  | some waiters ↦
      if holds_waiter waiter waiters
      then record c {
        waiters_by_key = put_back key (remove_waiter waiter waiters) c.waiters_by_key;
        woken = c.woken ++ (waiter, none) ∷ [];
      }
      else c
]

unfoldable pub resolve_timeout : Option ℕ → ℕ
resolve_timeout timeout_ms = max 1 (positive_or 8_000 timeout_ms)
