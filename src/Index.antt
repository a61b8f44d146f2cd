-- ===== src/Index.antt =====
-- src/background/cache/cache-registry.js: the worker's index of the keys in the cache database, and
-- what it sends to the pages.
--
-- `timer` says whether `registrySyncTimer` is set; a payload that is sent to the tabs stands in
-- `sent`. A cache key that is no string, or empty, is not in a list.
pub mod Hits
mod Tests
use text.Mathlib.Text.{starts_with}
use aegis_stream.Prelude.Keys.{◌===◌, string_eq}
use aegis_stream.Prelude.OrdSet
use aegis_stream.Prelude.{
  ℕ, zero, suc, ◌+◌, String, Bool, true, false, not, ◌&&◌, ◌||◌, Option, none, some, List, [], ◌∷◌,
  ◌++◌, ◌==◌, if◌then◌else◌, length, take, nonzero_or,
}

pub record Payload : Type 0 where
  pub keys : List String
  pub generation : ℕ
  pub replace : Bool
  pub reason : String

pub record Index : Type 0 where
  pub cache_registry_keys : List String
  pub cache_registry_generation : ℕ
  pub timer : Bool
  pub sent : List Payload

-- The functions of other scripts, where they are there, and a constant.
pub record Env : Type 0 where
  pub resolve_registry_key : Option (String → Option String)
  pub build_media_invariant_key : Option (String → Option String)
  pub build_cache_key_variants : Option (String → List String)
  pub cache_registry_max_keys : Option ℕ

abbrev pub or_raw : String → Option String → String
or_raw raw none = raw
or_raw raw (some key) = key

abbrev pub invariant_or_raw : Env → String → String
invariant_or_raw env raw = elim env.build_media_invariant_key [
  | none ↦ raw
  | some build ↦ or_raw raw (build raw)
]

-- The registry key of one cache key.
unfoldable pub registry_key : Env → String → Option String
registry_key env raw =
    if raw === ""
    then none
    else if starts_with raw "aegis|" || starts_with raw "range|"
    then some raw
    else elim env.resolve_registry_key [
      | some resolve ↦ resolve raw
      | none ↦ some (invariant_or_raw env raw)
    ]

abbrev pub add_found : Option String → List String → List String
add_found none keys = keys
add_found (some key) keys = OrdSet.add key keys

unfoldable pub registry_keys_onto : Env → List String → List String → List String
unfolding registry_key
registry_keys_onto env [] keys = keys
registry_keys_onto env (raw ∷ raws) keys =
    registry_keys_onto env raws (add_found (registry_key env raw) keys)

unfoldable pub registry_keys_from_cache_keys : Env → List String → List String
unfolding registry_keys_onto
registry_keys_from_cache_keys env raws = registry_keys_onto env raws []

-- Whether a key of the list is in, or is not in, the set.
abbrev pub any_in : List String → List String → Bool
any_in [] s = false
any_in (key ∷ keys) s = OrdSet.has key s || any_in keys s

abbrev pub any_out : List String → List String → Bool
any_out [] s = false
any_out (key ∷ keys) s = not (OrdSet.has key s) || any_out keys s

-- `state.cacheRegistryGeneration += 1; scheduleCacheRegistrySync()`
abbrev pub note_change : List String → Index → Index
note_change keys i = record i {
  cache_registry_keys = keys;
  cache_registry_generation = i.cache_registry_generation + 1;
  timer = true;
}

-- The keys of one call are distinct, so what was missing before the loop is what the loop adds.
unfoldable pub register_cache_keys : Env → List String → Index → Bool × Index
unfolding registry_keys_from_cache_keys
register_cache_keys env cache_keys i =
    let keys = registry_keys_from_cache_keys env cache_keys in
    if any_out keys i.cache_registry_keys
    then (true, note_change (OrdSet.add_all keys i.cache_registry_keys) i)
    else (false, i)

unfoldable pub unregister_cache_keys : Env → List String → Index → Bool × Index
unfolding registry_keys_from_cache_keys
unregister_cache_keys env cache_keys i =
    let keys = registry_keys_from_cache_keys env cache_keys in
    if any_in keys i.cache_registry_keys
    then (true, note_change (OrdSet.delete_all keys i.cache_registry_keys) i)
    else (false, i)

abbrev pub variants_of : Env → String → List String
variants_of env url = elim env.build_cache_key_variants [ none ↦ url ∷ [] | some build ↦ build url ]

unfoldable pub is_cache_registry_hit : Env → String → Index → Bool
unfolding registry_keys_from_cache_keys
is_cache_registry_hit env url i =
    not (url === "")
    && not (length i.cache_registry_keys == 0)
    && any_in (registry_keys_from_cache_keys env (variants_of env url)) i.cache_registry_keys

-- `AUTHORITATIVE_REPLACE_REASONS.has(reason)`
unfoldable pub is_replace_reason : String → Bool
is_replace_reason reason =
    reason === "db-rebuild"
    || reason === "tab-sync"
    || reason === "manual-purge"
    || reason === "authoritative-rebuild"
    || reason === "navigation-reset"

abbrev pub max_keys : Env → ℕ
max_keys env = nonzero_or 800 env.cache_registry_max_keys

unfoldable pub build_registry_payload : Env → String → Index → Payload
unfolding is_replace_reason
build_registry_payload env reason i = record {
  keys = take (max_keys env) i.cache_registry_keys;
  generation = i.cache_registry_generation;
  replace = is_replace_reason reason;
  reason = reason;
}

-- `flushCacheRegistrySync`, when the browser lists the tabs.
unfoldable pub flush_cache_registry_sync : Env → String → Index → Index
unfolding build_registry_payload
flush_cache_registry_sync env reason i = record i {
  sent = i.sent ++ build_registry_payload env reason i ∷ [];
}

-- The timer of `scheduleCacheRegistrySync`.
unfoldable pub fire_timer : Env → Index → Index
unfolding flush_cache_registry_sync
fire_timer env i =
    if i.timer then flush_cache_registry_sync env "routine-sync" (record i { timer = false }) else i

unfoldable pub clear_cache_registry : Env → Index → Index
unfolding flush_cache_registry_sync
clear_cache_registry env i =
    if length i.cache_registry_keys == 0
    then i
    else flush_cache_registry_sync env "manual-purge" (record i {
      cache_registry_keys = [];
      cache_registry_generation = i.cache_registry_generation + 1;
      timer = false;
    })

unfoldable pub keys_of_urls : Env → List String → List String → List String
unfolding registry_keys_from_cache_keys
keys_of_urls env [] keys = keys
keys_of_urls env (url ∷ urls) keys =
    keys_of_urls env urls
      (OrdSet.add_all (registry_keys_from_cache_keys env (variants_of env url)) keys)

-- `urls` is what `listCachedChunkKeys` gives.
unfoldable pub rebuild_cache_registry_from_db : Env → List String → Index → ℕ × Index
unfolding keys_of_urls flush_cache_registry_sync
rebuild_cache_registry_from_db env urls i =
    let keys = keys_of_urls env urls [] in
    (
      length keys,
      flush_cache_registry_sync env "db-rebuild" (record i {
        cache_registry_keys = keys;
        cache_registry_generation = i.cache_registry_generation + 1;
      }),
    )
