-- ===== src/Registry/Trust.antt =====
-- What lookups in src/page/cache/cache-registry.js can rely on.
use aegis_stream.Prelude.Keys.{string_eq}
use aegis_stream.Prelude.OrdSet
use aegis_stream.Prelude.{
  ℕ, ◌+◌, ◌-◌, ◌≤◌, ◌<◌, ◌≡◌, refl, ◌∙◌, String, Bool, true, false, ◌&&◌, Option, none, some, List,
  [], ◌∷◌, ◌==◌, if◌then◌else◌, length, arith, Bool-cases, inl, inr,
}
use aegis_stream.Registry.Keys.{
  Resolvers, register_key_variants, resolve_canonical_coalesce_key, resolve_registry_key,
  is_canonical, call, add_key,
}
use aegis_stream.Registry.{
  Registry, Env, max_local_registry_keys, registry_fresh_ms, registry_false_negative_penalty_ms,
  trim, note_local_cache_key, remove_local_cache_key, holds, holds_canonical, has_localized,
  is_cached_key, is_inflight_key, note_registry_false_negative, resolve_cache_confidence,
  is_likely_cache_hit_candidate,
}

has-add_key :
    (key : String) (o : Option String) (keys : List String)
    → OrdSet.has key keys ≡ true
    → OrdSet.has key (add_key o keys) ≡ true
has-add_key key none keys h = h
has-add_key key (some k) keys h = ground (arith, h, OrdSet.has-add key k keys)

has-add_key_self :
    (key : String) (o : Option String) (keys : List String)
    → o ≡ some key
    → OrdSet.has key (add_key o keys) ≡ true
has-add_key_self key none keys h = absurd (ground (arith, h))
has-add_key_self key (some k) keys h = ground (arith, h, OrdSet.has-add key k keys)

-- The keys that a lookup asks for are variants of the URL.
variant-coalesce :
    (n : Resolvers) (url : Option String) (key : String)
    → resolve_canonical_coalesce_key n url ≡ some key
    → OrdSet.has key (register_key_variants n url) ≡ true
unfolding register_key_variants
variant-coalesce n url key h =
    has-add_key key (call n.build_media_invariant_key url)
      (add_key (resolve_registry_key n url) (add_key (resolve_canonical_coalesce_key n url) []))
      (has-add_key key (resolve_registry_key n url)
        (add_key (resolve_canonical_coalesce_key n url) [])
        (has-add_key_self key (resolve_canonical_coalesce_key n url) [] h))

variant-invariant :
    (n : Resolvers) (url : Option String) (key : String)
    → call n.build_media_invariant_key url ≡ some key
    → OrdSet.has key (register_key_variants n url) ≡ true
unfolding register_key_variants
variant-invariant n url key h =
    has-add_key_self key (call n.build_media_invariant_key url)
      (add_key (resolve_registry_key n url) (add_key (resolve_canonical_coalesce_key n url) [])) h

holds_none :
    (o : Option String) (variants keys : List String)
    → ((key : String) → o ≡ some key → OrdSet.has key variants ≡ true)
    → holds o (OrdSet.delete_all variants keys) ≡ false
holds_none none variants keys h = refl
holds_none (some key) variants keys h =
    ground (arith, h key refl, OrdSet.has-delete_all key variants keys)

canonical_self :
    (n : Resolvers) (url : String)
    → is_canonical url ≡ true
    → resolve_canonical_coalesce_key n (some url) ≡ some url
unfolding resolve_canonical_coalesce_key
canonical_self n url h = rw (h, resolve_canonical_coalesce_key) refl

holds_canonical_none :
    (n : Resolvers) (url : Option String) (keys : List String)
    → holds_canonical url (OrdSet.delete_all (register_key_variants n url) keys) ≡ false
holds_canonical_none n none keys = refl
holds_canonical_none n (some url) keys = elim (Bool-cases (is_canonical url)) [
  | inr p ↦ rw p refl
  | inl p ↦ rw p (
      holds_none (some url) (register_key_variants n (some url)) keys
        (λ key q. variant-coalesce n (some url) key (canonical_self n url p ∙ q)))
]

has_localized-delete_all :
    (n : Resolvers) (url : Option String) (keys : List String)
    → has_localized n url (OrdSet.delete_all (register_key_variants n url) keys) ≡ false
unfolding has_localized
has_localized-delete_all n url keys =
    let variants = register_key_variants n url in
    ground (
      arith,
      holds_canonical_none n url keys,
      holds_none (resolve_canonical_coalesce_key n url) variants keys (variant-coalesce n url),
      holds_none (call n.build_media_invariant_key url) variants keys (variant-invariant n url),
    )

else_false : (b x y : Bool) → b ≡ false → y ≡ false → (if b then x else y) ≡ false
else_false b x y p q = rw p q

is_inflight-delete_all :
    (n : Resolvers) (url : Option String) (keys : List String) (r : Registry)
    → r.inflight_cache_intent_keys ≡ OrdSet.delete_all (register_key_variants n url) keys
    → is_inflight_key n url r ≡ false
unfolding is_inflight_key
is_inflight-delete_all n none keys r h =
    rw (h, is_inflight_key) (has_localized-delete_all n none keys)
is_inflight-delete_all n (some url) keys r h = elim (Bool-cases (is_canonical url)) [
  | inr p ↦
      rw (h, is_inflight_key)
        (else_false (is_canonical url)
          (holds (some url) (OrdSet.delete_all (register_key_variants n (some url)) keys))
          (has_localized n (some url) (OrdSet.delete_all (register_key_variants n (some url)) keys))
          p (has_localized-delete_all n (some url) keys))
  | inl p ↦
      rw (p, h, is_inflight_key)
        (holds_none (some url) (register_key_variants n (some url)) keys
          (λ key q. variant-coalesce n (some url) key (canonical_self n url p ∙ q)))
]

-- After `removeLocalCacheKey(url)` the page believes `url` neither cached nor in flight, whatever
-- the key functions of the other scripts give.
pub remove_local_cache_key-forgets :
    (env : Env) (url : Option String) (r : Registry)
    → (is_cached_key env.resolvers url (remove_local_cache_key env url r) ≡ false)
      × (is_inflight_key env.resolvers url (remove_local_cache_key env url r) ≡ false)
unfolding is_cached_key remove_local_cache_key
remove_local_cache_key-forgets env url r = (
  has_localized-delete_all env.resolvers url r.localized_cache_keys,
  is_inflight-delete_all env.resolvers url r.inflight_cache_intent_keys
      (remove_local_cache_key env url r) refl,
)

trim_room : (most : ℕ) (keys : List String) → length keys ≤ most → trim most keys ≡ keys
unfolding trim
trim_room most keys h =
    let none_over : length keys - most ≡ 0 = omega (arith, h) in rw (none_over, trim) refl

has_localized-coalesce :
    (n : Resolvers) (url : Option String) (key : String) (keys : List String)
    → resolve_canonical_coalesce_key n url ≡ some key
    → OrdSet.has key keys ≡ true
    → has_localized n url keys ≡ true
unfolding has_localized
has_localized-coalesce n url key keys h found = rw (h, has_localized) (ground (arith, found))

length-nonempty :
    (key : String) (keys : List String) → OrdSet.has key keys ≡ true → (length keys == 0) ≡ false
unfolding OrdSet.has
length-nonempty key [] h = absurd (ground (arith, h))
length-nonempty key (k ∷ keys) h = ground arith

known_key :
    (env : Env) (url : Option String) (key : String) (r : Registry)
    → resolve_canonical_coalesce_key env.resolvers url ≡ some key
    → length r.localized_cache_keys + length (register_key_variants env.resolvers url)
      ≤ max_local_registry_keys
    → is_cached_key env.resolvers url (note_local_cache_key env url r) ≡ true
unfolding is_cached_key note_local_cache_key
known_key env url key r h room =
    let keys = register_key_variants env.resolvers url in
    let mine = variant-coalesce env.resolvers url key h in
    let all = OrdSet.add_all keys r.localized_cache_keys in
    let fits : length all ≤ max_local_registry_keys =
      omega (arith, OrdSet.length-add_all keys r.localized_cache_keys, room) in
    rw (length-nonempty key keys mine, trim_room max_local_registry_keys all fits)
      (has_localized-coalesce env.resolvers url key all h
        (OrdSet.has-add_all key keys r.localized_cache_keys ∙ ground (arith, mine)))

-- After `noteLocalCacheKey(url)`, for a URL with a coalesce key and with room for its keys, the page
-- believes `url` cached, and asks for it if serving is on.
pub note_local_cache_key-finds :
    (env : Env) (url : Option String) (key : String) (r : Registry)
    → resolve_canonical_coalesce_key env.resolvers url ≡ some key
    → length r.localized_cache_keys + length (register_key_variants env.resolvers url)
      ≤ max_local_registry_keys
    → (is_cached_key env.resolvers url (note_local_cache_key env url r) ≡ true)
      × (is_likely_cache_hit_candidate env url (note_local_cache_key env url r)
          ≡ (env.extension_enabled && env.serve_from_cache))
unfolding is_likely_cache_hit_candidate resolve_cache_confidence
note_local_cache_key-finds env url key r h room =
    let known = known_key env url key r h room in (known, rw known (ground arith))

-- A lookup that turns out to have been wrongly refused suspends the registry: for the next 30
-- seconds every URL is asked for if serving is on, whatever syncs say.
pub note_registry_false_negative-suspends :
    (env : Env) (later : Env) (url : Option String) (r s : Registry)
    → later.now < env.now + registry_false_negative_penalty_ms
    → s.registry_false_negative_until
      ≡ (note_registry_false_negative env r).registry_false_negative_until
    → is_likely_cache_hit_candidate later url s
      ≡ (later.extension_enabled && later.serve_from_cache)
unfolding is_likely_cache_hit_candidate resolve_cache_confidence note_registry_false_negative
note_registry_false_negative-suspends env later url r s h p = ground (arith, h, p)

-- With serving on, a lookup is refused only if the page believes the URL neither cached nor in
-- flight, a sync came in the last 10 seconds, and no wrong refusal is being punished.
pub refused-IsFresh :
    (env : Env) (url : Option String) (r : Registry)
    → env.extension_enabled ≡ true
    → env.serve_from_cache ≡ true
    → is_likely_cache_hit_candidate env url r ≡ false
    → (is_cached_key env.resolvers url r ≡ false)
      × (is_inflight_key env.resolvers url r ≡ false)
      × (0 < r.last_registry_sync_at)
      × (env.now - r.last_registry_sync_at ≤ registry_fresh_ms)
      × (r.registry_false_negative_until ≤ env.now)
unfolding is_likely_cache_hit_candidate resolve_cache_confidence
refused-IsFresh env url r on serving refused = ground (arith, on, serving, refused)
