-- ===== src/HotBytes/Resolving.antt =====
-- How src/page/cache/hot-byte-cache.js turns URLs and cache keys into its own keys.
use text.Mathlib.Text.{starts_with}
use aegis_stream.Prelude.Keys.{◌===◌, string_eq}
use aegis_stream.Prelude.{String, Bool, ◌||◌, Option, none, some, if◌then◌else◌}

-- The functions that other page scripts put into `ns`, where they are there.
pub record Resolvers : Type 0 where
  pub resolve_network_coalesce_key : Option (Option String → Option String → Option String)
  pub resolve_canonical_coalesce_key : Option (String → Option String)
  pub build_media_invariant_key : Option (String → Option String)
  pub strip_hash : Option (String → Option String)
  -- `String(x).split("#")[0]`
  pub before_hash : String → String

unfoldable pub is_canonical_coalesce_key : String → Bool
is_canonical_coalesce_key value = starts_with value "range|" || starts_with value "aegis|"

-- `a || b` on keys.
abbrev pub or_key : Option String → Option String → Option String
or_key none b = b
or_key (some a) b = some a

abbrev pub truthy : String → Option String
truthy s = if s === "" then none else some s

abbrev call : Option (String → Option String) → Option String → Option String
call none arg = none
call (some f) none = none
call (some f) (some arg) = f arg

abbrev canonical : Option String → Option String
canonical none = none
canonical (some k) = if is_canonical_coalesce_key k then some k else none

abbrev coalesced : Resolvers → Option String → Option String → Option String
coalesced r key_or_url cache_key = elim r.resolve_network_coalesce_key [
  | none ↦ none
  | some f ↦ f key_or_url cache_key
]

abbrev hash_free : Resolvers → String → Option String
hash_free r raw = elim r.strip_hash [ some f ↦ f raw | none ↦ truthy (r.before_hash raw) ]

-- An absent argument is `none`. The first resolver that gives a key decides.
unfoldable pub resolve_hot_key : Resolvers → Option String → Option String → Option String
unfolding is_canonical_coalesce_key
resolve_hot_key r none none = none
resolve_hot_key r key_or_url cache_key = or_key (canonical cache_key) (
    or_key (canonical key_or_url) (
      or_key (coalesced r key_or_url cache_key) (
        or_key (call r.resolve_canonical_coalesce_key (or_key key_or_url cache_key)) (
          or_key (call r.build_media_invariant_key (or_key key_or_url cache_key))
            (call (some (hash_free r)) (or_key key_or_url cache_key))))))
