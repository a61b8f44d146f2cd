-- ===== src/Registry.antt =====
-- src/page/cache/cache-registry.js: which keys the page believes to be in the cache.
--
-- A key or URL that is no string, or empty, is `none`, or not in a list. Confidences are tenths.
pub mod Keys
pub mod Trust
pub mod Bounds
mod Tests
use aegis_stream.Prelude.Keys.{◌===◌, string_eq}
use aegis_stream.Prelude.OrdMap
use aegis_stream.Prelude.OrdMap.{OrdMap}
use aegis_stream.Prelude.OrdSet
use aegis_stream.Prelude.{
  ℕ, zero, suc, ◌+◌, ◌-◌, String, Bool, true, false, not, ◌&&◌, ◌||◌, Option, none, some, List, [],
  ◌∷◌, ltb, leb, ◌==◌, if◌then◌else◌, length, drop, retain, nonzero_or, is_some,
}
use aegis_stream.Registry.Keys.{
  Resolvers, register_key_variants, resolve_canonical_coalesce_key, normalize_all, is_canonical,
  call,
}

abbrev pub max_local_registry_keys : ℕ
max_local_registry_keys = 800

abbrev pub max_inflight_intent_keys : ℕ
max_inflight_intent_keys = 400

abbrev pub registry_fresh_ms : ℕ
registry_fresh_ms = 10_000

abbrev pub registry_false_negative_penalty_ms : ℕ
registry_false_negative_penalty_ms = 30_000

abbrev pub local_add_trace_ms : ℕ
local_add_trace_ms = 30_000

-- `hot_clears` and `coerced_reports` count calls that go to other scripts of the page.
pub record Registry : Type 0 where
  pub localized_cache_keys : List String
  pub inflight_cache_intent_keys : List String
  pub registry_generation : ℕ
  pub last_registry_sync_at : ℕ
  pub registry_false_negative_until : ℕ
  pub recent_local_adds : OrdMap String ℕ
  pub hot_clears : ℕ
  pub coerced_reports : ℕ

-- `bridge_ready`: the media bridge is active, or can be activated, or is not there to ask.
pub record Env : Type 0 where
  pub resolvers : Resolvers
  pub extension_enabled : Bool
  pub serve_from_cache : Bool
  pub bridge_ready : Bool
  pub now : ℕ

pub record Payload : Type 0 where
  pub reason : Option String
  pub replace : Bool
  pub keys : List String
  pub removed_keys : List String
  pub generation : Option ℕ

-- Both trims: the oldest keys go.
unfoldable pub trim : ℕ → List String → List String
trim most keys = drop (length keys - most) keys

abbrev pub reason_of : Payload → String
reason_of payload = elim payload.reason [ none ↦ "routine-sync" | some reason ↦ reason ]

unfoldable pub is_authoritative : String → Bool
is_authoritative reason =
    reason === "db-rebuild"
    || reason === "tab-sync"
    || reason === "manual-purge"
    || reason === "authoritative-rebuild"
    || reason === "navigation-reset"

abbrev pub is_replace_authorized : Payload → Bool
is_replace_authorized payload = payload.replace && is_authoritative (reason_of payload)

abbrev pub next_generation : Option ℕ → ℕ → ℕ
next_generation sent held = nonzero_or (held + 1) sent

-- The keys after a sync, before they are trimmed.
unfoldable pub merge_keys : Bool → List String → List String → List String → List String
merge_keys authorized incoming removed keys =
    if authorized
    then OrdSet.add_all incoming []
    else OrdSet.delete_all removed (OrdSet.add_all incoming keys)

unfoldable pub apply_cache_registry_sync : Env → Payload → Registry → Registry
unfolding trim is_authoritative merge_keys
apply_cache_registry_sync env payload r =
    if env.bridge_ready
    then record r {
      localized_cache_keys = trim max_local_registry_keys (
          merge_keys (is_replace_authorized payload) (normalize_all env.resolvers payload.keys)
            (normalize_all env.resolvers payload.removed_keys) r.localized_cache_keys);
      registry_generation = next_generation payload.generation r.registry_generation;
      last_registry_sync_at = env.now;
      hot_clears = r.hot_clears + (if is_replace_authorized payload then 1 else 0);
      coerced_reports =
          r.coerced_reports
          + (if payload.replace && not (is_replace_authorized payload) then 1 else 0);
    }
    else r

unfoldable pub note_store_intent : Env → Option String → Registry → Registry
unfolding trim
note_store_intent env url r = record r {
  inflight_cache_intent_keys =
      trim max_inflight_intent_keys
        (OrdSet.add_all (register_key_variants env.resolvers url) r.inflight_cache_intent_keys);
}

abbrev pub prune_recent_local_adds : ℕ → OrdMap String ℕ → OrdMap String ℕ
prune_recent_local_adds now =
    retain λ (key, added_at). not (ltb local_add_trace_ms (now - added_at))

abbrev pub touch_recent_local_add : ℕ → List String → OrdMap String ℕ → OrdMap String ℕ
touch_recent_local_add now [] adds = adds
touch_recent_local_add now (key ∷ keys) adds = prune_recent_local_adds now (OrdMap.set key now adds)

unfoldable pub note_local_cache_key : Env → Option String → Registry → Registry
unfolding trim
note_local_cache_key env url r =
    let keys = register_key_variants env.resolvers url in
    record r {
      localized_cache_keys =
          if length keys == 0
          then r.localized_cache_keys
          else trim max_local_registry_keys (OrdSet.add_all keys r.localized_cache_keys);
      inflight_cache_intent_keys = OrdSet.delete_all keys r.inflight_cache_intent_keys;
      recent_local_adds = touch_recent_local_add env.now keys r.recent_local_adds;
    }

unfoldable pub remove_local_cache_key : Env → Option String → Registry → Registry
remove_local_cache_key env url r = record r {
  localized_cache_keys =
      OrdSet.delete_all (register_key_variants env.resolvers url) r.localized_cache_keys;
  inflight_cache_intent_keys =
      OrdSet.delete_all (register_key_variants env.resolvers url) r.inflight_cache_intent_keys;
}

abbrev pub holds : Option String → List String → Bool
holds none keys = false
holds (some key) keys = OrdSet.has key keys

abbrev pub holds_canonical : Option String → List String → Bool
holds_canonical none keys = false
holds_canonical (some url) keys = is_canonical url && OrdSet.has url keys

-- `hasLocalizedDiskEntry` and `hasLocalizedIntent`, which differ in the set that they ask.
unfoldable pub has_localized : Resolvers → Option String → List String → Bool
has_localized n url keys =
    holds_canonical url keys
    || holds (resolve_canonical_coalesce_key n url) keys
    || holds (call n.build_media_invariant_key url) keys

unfoldable pub note_prefetch_intent : Env → Option String → Registry → Registry
unfolding trim has_localized
note_prefetch_intent env url r =
    let keys = register_key_variants env.resolvers url in
    if length keys == 0 || has_localized env.resolvers url r.inflight_cache_intent_keys
    then r
    else record r {
      inflight_cache_intent_keys =
          trim max_inflight_intent_keys (OrdSet.add_all keys r.inflight_cache_intent_keys);
    }

unfoldable pub note_prefetch_intent_batch : Env → List (Option String) → Registry → Registry
unfolding note_prefetch_intent
note_prefetch_intent_batch env [] r = r
note_prefetch_intent_batch env (url ∷ urls) r =
    note_prefetch_intent_batch env urls (note_prefetch_intent env url r)

unfoldable pub clear_prefetch_intent : Env → Option String → Registry → Registry
clear_prefetch_intent env url r = record r {
  inflight_cache_intent_keys =
      OrdSet.delete_all (register_key_variants env.resolvers url) r.inflight_cache_intent_keys;
}

unfoldable pub clear_prefetch_intent_batch : Env → List (Option String) → Registry → Registry
unfolding clear_prefetch_intent
clear_prefetch_intent_batch env [] r = r
clear_prefetch_intent_batch env (url ∷ urls) r =
    clear_prefetch_intent_batch env urls (clear_prefetch_intent env url r)

unfoldable pub is_cached_key : Resolvers → Option String → Registry → Bool
unfolding has_localized
is_cached_key n url r = has_localized n url r.localized_cache_keys

abbrev canonical_url : Option String → Bool
canonical_url none = false
canonical_url (some url) = is_canonical url

unfoldable pub is_inflight_key : Resolvers → Option String → Registry → Bool
unfolding has_localized
is_inflight_key n url r =
    if canonical_url url
    then holds url r.inflight_cache_intent_keys
    else has_localized n url r.inflight_cache_intent_keys

unfoldable pub note_registry_false_negative : Env → Registry → Registry
note_registry_false_negative env r = record r {
  registry_false_negative_until = env.now + registry_false_negative_penalty_ms;
}

abbrev swift : Resolvers → Option String → Bool
swift n none = false
swift n (some url) = n.is_swift_segment url

-- `lastRegistrySyncAt` is 0 before the first sync.
unfoldable pub resolve_cache_confidence : Env → Option String → Registry → ℕ
unfolding is_cached_key is_inflight_key
resolve_cache_confidence env url r =
    if is_cached_key env.resolvers url r
    then 9
    else if is_inflight_key env.resolvers url r
    then 8
    else if swift env.resolvers url
    then 5
    else if ltb env.now r.registry_false_negative_until
    then 5
    else if r.last_registry_sync_at == 0
    then 5
    else if ltb registry_fresh_ms (env.now - r.last_registry_sync_at)
    then 5
    else 2

abbrev pub lookup_confidence_threshold : ℕ
lookup_confidence_threshold = 3

unfoldable pub is_likely_cache_hit_candidate : Env → Option String → Registry → Bool
unfolding resolve_cache_confidence
is_likely_cache_hit_candidate env url r =
    env.extension_enabled
    && env.serve_from_cache
    && leb lookup_confidence_threshold (resolve_cache_confidence env url r)
