-- ===== src/Registry/Tests.antt =====
-- Runs of src/page/cache/cache-registry.js on small inputs.
use aegis_stream.Prelude.OrdSet
use aegis_stream.Prelude.{
  ℕ, ◌-◌, ◌≤◌, ◌<◌, ◌≡◌, refl, true, false, none, some, List, [], ◌∷◌, arith,
}
use aegis_stream.Registry.Keys.{Resolvers, resolve_canonical_coalesce_key}
use aegis_stream.Registry.{
  Registry, Env, Payload, is_cached_key, is_inflight_key, is_likely_cache_hit_candidate,
  registry_fresh_ms, has_localized, resolve_cache_confidence,
}
use aegis_stream.Registry.Trust.{refused-IsFresh}
use aegis_stream.Registry.Bounds.{Inv, Change, syncs, notes, change_all, change_all-Inv}

abbrev keyless : Resolvers
keyless = record {
  resolve_byte_range_cache_key = none;
  build_media_invariant_key = none;
  strip_hash = none;
  before_hash = λ s. some s;
  resolve_network_coalesce_key = some λ s. some s;
  resolve_structural_path_coalesce_key = none;
  is_http_url = λ s. false;
  is_swift_segment = λ s. false;
}

abbrev at : ℕ → Env
at now = record {
  resolvers = keyless;
  extension_enabled = true;
  serve_from_cache = true;
  bridge_ready = true;
  now = now;
}

abbrev blank : Registry
blank = record {
  localized_cache_keys = [];
  inflight_cache_intent_keys = [];
  registry_generation = 0;
  last_registry_sync_at = 0;
  registry_false_negative_until = 0;
  recent_local_adds = [];
  hot_clears = 0;
  coerced_reports = 0;
}

blank-Inv : Inv blank
blank-Inv = record {
  local = record { distinct = tt; few = omega arith };
  intent = record { distinct = tt; few = omega arith };
}

abbrev routine : Payload
routine = record {
  reason = some "routine-sync";
  replace = true;
  keys = "range|a" ∷ "range|b" ∷ [];
  removed_keys = [];
  generation = some 3;
}

abbrev changes : List (Env × Change)
changes = (at 5, syncs routine) ∷ (at 6, notes (some "seg1")) ∷ []

change_all-Inv_example : Inv (change_all changes blank)
change_all-Inv_example = change_all-Inv changes blank blank-Inv

abbrev used : Registry
used = change_all changes blank

abbrev synced : Registry
synced = record blank { last_registry_sync_at = 5 }

refused-IsFresh_example :
    (is_cached_key keyless (some "seg9") synced ≡ false)
    × (is_inflight_key keyless (some "seg9") synced ≡ false)
    × (0 < synced.last_registry_sync_at)
    × (9 - synced.last_registry_sync_at ≤ registry_fresh_ms)
    × (synced.registry_false_negative_until ≤ 9)
unfolding is_likely_cache_hit_candidate resolve_cache_confidence is_cached_key is_inflight_key
    has_localized resolve_canonical_coalesce_key OrdSet.has
refused-IsFresh_example = refused-IsFresh (at 9) (some "seg9") synced refl refl refl

abbrev holding : Registry
holding = record blank { localized_cache_keys = "range|c" ∷ []; hot_clears = 2 }
