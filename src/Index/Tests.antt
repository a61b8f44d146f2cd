-- ===== src/Index/Tests.antt =====
-- Runs of src/background/cache/cache-registry.js on small inputs.
use aegis_stream.Prelude.Keys.{string_eq}
use aegis_stream.Prelude.OrdSet
use aegis_stream.Prelude.{◌≤◌, ◌≡◌, refl, true, some, false, none, [], ◌∷◌, length}
use aegis_stream.Index.{
  Index, Env, unregister_cache_keys, is_cache_registry_hit, build_registry_payload, max_keys,
  any_out, register_cache_keys, registry_keys_from_cache_keys, registry_keys_onto, registry_key,
}
use aegis_stream.Registry.{is_replace_authorized}
use aegis_stream.Index.Hits.{unregister_cache_keys-exact, received, build_registry_payload-agrees}

abbrev plain : Env
plain = record {
  resolve_registry_key = none;
  build_media_invariant_key = none;
  build_cache_key_variants = none;
  cache_registry_max_keys = none;
}

abbrev held : Index
held = record {
  cache_registry_keys = "a" ∷ "b" ∷ [];
  cache_registry_generation = 4;
  timer = false;
  sent = [];
}

-- A URL of two variants, each with a registry key of its own.
abbrev two_variants : Env
two_variants = record plain { build_cache_key_variants = some λ url. url ∷ "sorted" ∷ [] }

-- The row of the URL is deleted, and the URL is still a hit.
unregister_cache_keys-exact_example :
    is_cache_registry_hit two_variants "a"
      (unregister_cache_keys two_variants
        ("a" ∷ [])
        (register_cache_keys two_variants ("a" ∷ "sorted" ∷ []) held).1).1
    ≡ any_out
        (registry_keys_from_cache_keys two_variants ("a" ∷ "sorted" ∷ []))
        (registry_keys_from_cache_keys two_variants ("a" ∷ []))
unfolding string_eq
unregister_cache_keys-exact_example =
    unregister_cache_keys-exact two_variants "a" ("a" ∷ []) held refl

still_a_hit :
    any_out
      (registry_keys_from_cache_keys two_variants ("a" ∷ "sorted" ∷ []))
      (registry_keys_from_cache_keys two_variants ("a" ∷ []))
    ≡ true
unfolding registry_keys_from_cache_keys registry_keys_onto registry_key string_eq OrdSet.has
    OrdSet.add
still_a_hit = refl

build_registry_payload-agrees_example :
    (is_replace_authorized (received (build_registry_payload plain "tab-sync" held))
      ≡ (build_registry_payload plain "tab-sync" held).replace)
    × (length (build_registry_payload plain "tab-sync" held).keys ≤ max_keys plain)
build_registry_payload-agrees_example = build_registry_payload-agrees plain "tab-sync" held
