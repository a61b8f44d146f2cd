-- ===== src/Registry/Keys.antt =====
-- How src/page/cache/cache-registry.js turns a URL into the keys that stand for it.
use text.Mathlib.Text.{starts_with}
use aegis_stream.Prelude.Keys.{◌===◌, string_eq}
use aegis_stream.Prelude.OrdSet
use aegis_stream.Prelude.{
  String, Bool, true, false, ◌||◌, Option, none, some, List, [], ◌∷◌, if◌then◌else◌,
}

-- The functions of other page scripts, where they are there, and the tests that the code makes with
-- regular expressions. `is_swift_segment` is the whole test of `resolveCacheConfidence`.
pub record Resolvers : Type 0 where
  pub resolve_byte_range_cache_key : Option (String → Option String)
  pub build_media_invariant_key : Option (String → Option String)
  pub strip_hash : Option (String → Option String)
  -- `url.split("#")[0]`
  pub before_hash : String → Option String
  pub resolve_network_coalesce_key : Option (String → Option String)
  pub resolve_structural_path_coalesce_key : Option (String → Option String)
  -- `/^https?:\/\//i`
  pub is_http_url : String → Bool
  pub is_swift_segment : String → Bool

abbrev pub is_canonical : String → Bool
is_canonical value = starts_with value "range|" || starts_with value "aegis|"

-- What a function that is there gives of an argument that is there.
abbrev pub call : Option (String → Option String) → Option String → Option String
call none arg = none
call (some f) none = none
call (some f) (some arg) = f arg

abbrev or_key : Option String → Option String → Option String
or_key none b = b
or_key (some a) b = some a

abbrev when_true : Bool → Option String → Option String
when_true true key = key
when_true false key = none

abbrev stripped : Resolvers → String → Option String
stripped n url = elim n.strip_hash [ some strip ↦ strip url | none ↦ n.before_hash url ]

unfoldable pub resolve_registry_key : Resolvers → Option String → Option String
resolve_registry_key n none = none
resolve_registry_key n (some url) = or_key (call n.resolve_byte_range_cache_key (some url)) (
    or_key (when_true (starts_with url "range|") (some url))
      (or_key (call n.build_media_invariant_key (some url)) (stripped n url)))

unfoldable pub resolve_canonical_coalesce_key : Resolvers → Option String → Option String
resolve_canonical_coalesce_key n none = none
resolve_canonical_coalesce_key n (some url) =
    if is_canonical url then some url else call n.resolve_network_coalesce_key (some url)

abbrev pub add_key : Option String → List String → List String
add_key none keys = keys
add_key (some key) keys = OrdSet.add key keys

unfoldable pub register_key_variants : Resolvers → Option String → List String
unfolding resolve_canonical_coalesce_key resolve_registry_key
register_key_variants n url =
    add_key (call n.build_media_invariant_key url)
      (add_key (resolve_registry_key n url) (add_key (resolve_canonical_coalesce_key n url) []))

unfoldable pub normalize_incoming_key : Resolvers → String → Option String
unfolding resolve_registry_key
normalize_incoming_key n key =
    if key === ""
    then none
    else if is_canonical key
    then some key
    else or_key (call n.resolve_structural_path_coalesce_key (some key)) (
        or_key (call n.resolve_network_coalesce_key (some key)) (
          or_key (when_true (n.is_http_url key) (call n.build_media_invariant_key (some key)))
            (resolve_registry_key n (some key))))

-- `keys.map(normalizeIncomingKey).filter(…)`
unfoldable pub normalize_all : Resolvers → List String → List String
unfolding normalize_incoming_key
normalize_all n [] = []
normalize_all n (key ∷ keys) =
    let rest = normalize_all n keys in
    elim (normalize_incoming_key n key) [ none ↦ rest | some k ↦ k ∷ rest ]
