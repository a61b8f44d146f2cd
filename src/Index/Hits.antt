-- ===== src/Index/Hits.antt =====
-- When src/background/cache/cache-registry.js says that a chunk is in the cache, and what it sends.
use aegis_stream.Prelude.Keys.{◌===◌, string_eq}
use aegis_stream.Prelude.OrdSet
use aegis_stream.Prelude.{
  ℕ, zero, suc, ◌≤◌, ◌≡◌, refl, ◌∙◌, String, Bool, true, false, not, ◌&&◌, ◌||◌, some, List, [],
  ◌∷◌, ◌==◌, length, take, arith, Bool-cases, inl, inr,
}
use aegis_stream.Index.{
  Index, Env, Payload, registry_keys_from_cache_keys, any_in, any_out, register_cache_keys,
  unregister_cache_keys, variants_of, is_cache_registry_hit, is_replace_reason,
  build_registry_payload, max_keys,
}
use aegis_stream.Registry as Page
use aegis_stream.Registry.{is_replace_authorized}

any_in-has :
    (key : String) (keys s : List String)
    → OrdSet.has key keys ≡ true
    → OrdSet.has key s ≡ true
    → any_in keys s ≡ true
unfolding OrdSet.has
any_in-has key [] s h g = absurd (ground (arith, h))
any_in-has key (k ∷ keys) s h g = ground (arith, any_in-has key keys s, h, g)

has_nonempty : (key : String) (s : List String) → OrdSet.has key s ≡ true → (length s == 0) ≡ false
unfolding OrdSet.has
has_nonempty key [] h = absurd (ground (arith, h))
has_nonempty key (k ∷ s) h = ground arith

-- A URL is a hit as soon as one of its registry keys is in the index.
hit_of_has :
    (env : Env) (url key : String) (i : Index)
    → (url === "") ≡ false
    → OrdSet.has key (registry_keys_from_cache_keys env (variants_of env url)) ≡ true
    → OrdSet.has key i.cache_registry_keys ≡ true
    → is_cache_registry_hit env url i ≡ true
unfolding is_cache_registry_hit
hit_of_has env url key i named mine held =
    let some_hit =
      any_in-has key (registry_keys_from_cache_keys env (variants_of env url)) i.cache_registry_keys
        mine held in
    let filled = has_nonempty key i.cache_registry_keys held in
    rw (named, some_hit, filled, is_cache_registry_hit) refl

any_out-has :
    (key : String) (keys s : List String)
    → any_out keys s ≡ false
    → OrdSet.has key keys ≡ true
    → OrdSet.has key s ≡ true
unfolding OrdSet.has
any_out-has key [] s h g = absurd (ground (arith, g))
any_out-has key (k ∷ keys) s h g = ground (arith, any_out-has key keys s, h, g)

registered :
    (env : Env) (raws : List String) (key : String) (i : Index)
    → OrdSet.has key (registry_keys_from_cache_keys env raws) ≡ true
    → OrdSet.has key (register_cache_keys env raws i).1.cache_registry_keys ≡ true
unfolding register_cache_keys
registered env raws key i mine =
    let keys = registry_keys_from_cache_keys env raws in
    elim (Bool-cases (any_out keys i.cache_registry_keys)) [
      | inr p ↦ rw (p, register_cache_keys) (any_out-has key keys i.cache_registry_keys p mine)
      | inl p ↦
          rw (p, register_cache_keys)
            (OrdSet.has-add_all key keys i.cache_registry_keys ∙ ground (arith, mine))
    ]

-- After the variants of a URL are registered, the URL is a hit if it has a registry key at all; so the
-- prefetcher does not fetch it twice.
pub register_cache_keys-hits :
    (env : Env) (url key : String) (i : Index)
    → (url === "") ≡ false
    → OrdSet.has key (registry_keys_from_cache_keys env (variants_of env url)) ≡ true
    → is_cache_registry_hit env url (register_cache_keys env (variants_of env url) i).1 ≡ true
register_cache_keys-hits env url key i named mine =
    hit_of_has env url key (register_cache_keys env (variants_of env url) i).1 named mine
      (registered env (variants_of env url) key i mine)

has-unregister :
    (env : Env) (raws : List String) (key : String) (i : Index)
    → OrdSet.has key (unregister_cache_keys env raws i).1.cache_registry_keys ≡ (
        OrdSet.has key i.cache_registry_keys
        && not (OrdSet.has key (registry_keys_from_cache_keys env raws)))
unfolding unregister_cache_keys
has-unregister env raws key i =
    let gone = registry_keys_from_cache_keys env raws in
    elim (Bool-cases (any_in gone i.cache_registry_keys)) [
      | inl p ↦
          rw (p, unregister_cache_keys)
            (OrdSet.has-delete_all key gone i.cache_registry_keys ∙ ground arith)
      | inr p ↦ elim (Bool-cases (OrdSet.has key gone)) [
        | inr q ↦ rw (p, unregister_cache_keys) (ground (arith, q))
        | inl q ↦ elim (Bool-cases (OrdSet.has key i.cache_registry_keys)) [
          | inl r ↦ absurd (ground (arith, p, any_in-has key gone i.cache_registry_keys q r))
          | inr r ↦ rw (p, unregister_cache_keys) (ground (arith, q, r))
        ]
      ]
    ]

any_in-any_out :
    (keys s gone : List String)
    → ((key : String) → OrdSet.has key keys ≡ true → OrdSet.has key s ≡ not (OrdSet.has key gone))
    → any_in keys s ≡ any_out keys gone
unfolding OrdSet.has
any_in-any_out [] s gone h = refl
any_in-any_out (key ∷ keys) s gone h =
    let here = h key (ground arith) in
    let later = any_in-any_out keys s gone (λ j q. h j (ground (arith, q))) in
    ground (arith, here, later)

any_in-nil : (keys : List String) → any_in keys [] ≡ false
unfolding OrdSet.has
any_in-nil [] = refl
any_in-nil (key ∷ keys) = any_in-nil keys

nonempty_if_any : (keys s : List String) → (not (length s == 0) && any_in keys s) ≡ any_in keys s
nonempty_if_any keys [] = ground (arith, any_in-nil keys)
nonempty_if_any keys (k ∷ s) = ground arith

-- Take a URL that is not empty, whose variants are registered when its chunk is stored. After the keys
-- of some rows are unregistered, as they are when rows are deleted, the URL is a hit exactly if one of
-- the registry keys of its variants is not a registry key of these rows.
pub unregister_cache_keys-exact :
    (env : Env) (url : String) (rows : List String) (i : Index)
    → (url === "") ≡ false
    → is_cache_registry_hit env url
        (unregister_cache_keys env rows (register_cache_keys env (variants_of env url) i).1).1
      ≡ any_out
          (registry_keys_from_cache_keys env (variants_of env url))
          (registry_keys_from_cache_keys env rows)
unfolding is_cache_registry_hit
unregister_cache_keys-exact env url rows i named =
    let mine = registry_keys_from_cache_keys env (variants_of env url) in
    let gone = registry_keys_from_cache_keys env rows in
    let stored = (register_cache_keys env (variants_of env url) i).1 in
    let s = (unregister_cache_keys env rows stored).1.cache_registry_keys in
    let left = any_in-any_out mine s gone (λ key q.
      has-unregister env rows key stored
      ∙ ground (arith, registered env (variants_of env url) key i q)) in
    rw (named, is_cache_registry_hit) (nonempty_if_any mine s ∙ left)

-- Whether a key is a registry key of one of the URLs.
abbrev pub covers : Env → String → List String → Bool
covers env key [] = false
covers env key (url ∷ urls) =
    OrdSet.has key (registry_keys_from_cache_keys env (variants_of env url)) || covers env key urls

-- A payload as the page reads it.
abbrev pub received : Payload → Page.Payload
received p = record {
  reason = some p.reason;
  replace = p.replace;
  keys = p.keys;
  removed_keys = [];
  generation = some p.generation;
}

length-take : (n : ℕ) (xs : List String) → length (take n xs) ≤ n
length-take zero xs = omega arith
length-take (suc n) [] = omega arith
length-take (suc n) (x ∷ xs) = omega (arith, length-take n xs)

-- The worker and the page agree on the reasons that replace: no payload that the worker builds is
-- coerced by the page. And a payload never has more keys than the configured number.
pub build_registry_payload-agrees :
    (env : Env) (reason : String) (i : Index)
    → (is_replace_authorized (received (build_registry_payload env reason i))
        ≡ (build_registry_payload env reason i).replace)
      × (length (build_registry_payload env reason i).keys ≤ max_keys env)
unfolding build_registry_payload is_replace_reason Page.is_authoritative
build_registry_payload-agrees env reason i =
    (ground arith, length-take (max_keys env) i.cache_registry_keys)
