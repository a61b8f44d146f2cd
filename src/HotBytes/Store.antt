-- ===== src/HotBytes/Store.antt =====
-- The state of src/page/cache/hot-byte-cache.js, and the helpers that its methods share.
--
-- `Map` is `OrdMap`; an ArrayBuffer is the list of its bytes; times are milliseconds. The keys that
-- `!key` refuses are `none`, so no empty string stands in a map.
use aegis_stream.HotBytes.Resolving.{Resolvers, resolve_hot_key}
use aegis_stream.Prelude.Keys.{◌===◌, string_eq}
use aegis_stream.Prelude.OrdMap
use aegis_stream.Prelude.OrdMap.{OrdMap}
use aegis_stream.Prelude.{
  ℕ, zero, suc, ◌-◌, ◌*◌, String, Bool, true, false, not, ◌&&◌, ◌||◌, Option, none, some, List, [],
  ◌∷◌, ◌++◌, ltb, leb, if◌then◌else◌, length, take, drop, retain,
}

abbrev pub max_entries : ℕ
max_entries = 128

abbrev pub max_bytes : ℕ
max_bytes = 96 * 1024 * 1024

abbrev pub max_entry_bytes : ℕ
max_entry_bytes = 16 * 1024 * 1024

abbrev pub max_aliases : ℕ
max_aliases = 256

abbrev pub max_waiters_per_key : ℕ
max_waiters_per_key = 32

abbrev pub max_waiter_keys : ℕ
max_waiter_keys = 64

abbrev pub entry_ttl_ms : ℕ
entry_ttl_ms = 120_000

pub record Entry : Type 0 where
  pub bytes : List ℕ
  pub content_type : String
  pub status : ℕ
  pub byte_length : ℕ
  pub stored_at : ℕ

-- What a lookup hands out. Its other fields are the constants `ok`, `hit`, `fromCache` and `via`.
pub record Payload : Type 0 where
  pub bytes : List ℕ
  pub content_type : String
  pub status : ℕ
  pub byte_length : ℕ

-- A waiter is a number; what its promise was resolved with stands in `woken`.
pub record Cache : Type 0 where
  pub entries : OrdMap String Entry
  pub aliases : OrdMap String String
  pub total_bytes : ℕ
  pub waiters_by_key : OrdMap String (List ℕ)
  pub woken : List (ℕ × Option Payload)

-- The flags and the clock that a call reads.
pub record Env : Type 0 where
  pub extension_enabled : Bool
  pub serve_from_cache : Bool
  pub resolvers : Resolvers
  pub now : ℕ

unfoldable pub is_serving_enabled : Env → Bool
is_serving_enabled env = env.extension_enabled && env.serve_from_cache

-- The values that `cloneBytes` tells apart.
pub data Bytes : Type 0 where
  absent : Bytes
  array_buffer : List ℕ → Bytes
  array_view : List ℕ → ℕ → ℕ → Bytes
  buffer_like : List ℕ → ℕ → ℕ → Bytes
  foreign : Bytes

-- `buffer.slice(start, start + n)`
abbrev pub slice : List ℕ → ℕ → ℕ → List ℕ
slice buffer start n = take n (drop start buffer)

unfoldable pub clone_bytes : Bytes → Option (List ℕ)
clone_bytes absent = none
clone_bytes (array_buffer bytes) = if leb (length bytes) 0 then none else some bytes
clone_bytes (array_view buffer offset n) = if leb n 0 then none else some (slice buffer offset n)
clone_bytes (buffer_like buffer offset n) = some (slice buffer offset n)
clone_bytes foreign = none

-- Both `for … of aliases.entries()` loops with a `delete` keep what the test does not name.
abbrev pub keep_aliases : (String → String → Bool) → OrdMap String String → OrdMap String String
keep_aliases keep = retain λ (alias, primary). keep alias primary

unfoldable pub drop_entry : String → Cache → Cache
drop_entry key c = elim (OrdMap.get key c.entries) [
  | none ↦ c
  | some entry ↦ record c {
    entries = OrdMap.delete key c.entries;
    total_bytes = c.total_bytes - entry.byte_length;
    aliases = keep_aliases (λ alias primary. not (primary === key || alias === key)) c.aliases;
  }
]

-- The entry, and the map with it moved to the end.
unfoldable pub touch_entry : String → Cache → Cache
touch_entry key c = elim (OrdMap.get key c.entries) [
  | none ↦ c
  | some entry ↦ record c { entries = OrdMap.set key entry (OrdMap.delete key c.entries) }
]

-- A key without an entry stands for the entry that its alias names. A dangling alias goes.
unfoldable pub follow_alias : String → Cache → Option String × Cache
follow_alias key c =
    if OrdMap.has key c.entries then (some key, c) else elim (OrdMap.get key c.aliases) [
      | none ↦ (some key, c)
      | some aliased ↦
          if OrdMap.has aliased c.entries
          then (some aliased, c)
          else (some key, record c { aliases = OrdMap.delete key c.aliases })
    ]

-- The key that the lookup goes on with, and the cache.
unfoldable pub resolve_primary_key :
    Resolvers → Option String → Option String → Cache → Option String × Cache
unfolding resolve_hot_key follow_alias
resolve_primary_key r key_or_url cache_key c = elim (resolve_hot_key r key_or_url cache_key) [
  | none ↦ (none, c)
  | some key ↦ follow_alias key c
]

unfoldable pub prune_aliases : Cache → Cache
prune_aliases c =
    let live = keep_aliases (λ alias primary. OrdMap.has primary c.entries) c.aliases in
    record c { aliases = drop (length live - max_aliases) live }

unfoldable pub register_alias : Option String → String → Cache → Cache
unfolding prune_aliases
register_alias none primary_key c = c
register_alias (some alias_key) primary_key c =
    if alias_key === primary_key
    then c
    else prune_aliases (record c { aliases = OrdMap.set alias_key primary_key c.aliases })

abbrev pub is_expired : ℕ → Entry → Bool
is_expired now entry = ltb entry_ttl_ms (now - entry.stored_at)

-- The first loop of `evictOverflow`, over the entries as they stand when it begins.
unfoldable pub drop_expired : ℕ → OrdMap String Entry → Cache → Cache
unfolding drop_entry
drop_expired now [] c = c
drop_expired now ((key, entry) ∷ rest) c =
    drop_expired now rest (if is_expired now entry then drop_entry key c else c)

abbrev pub over_limit : Cache → Bool
over_limit c = ltb max_entries (length c.entries) || ltb max_bytes c.total_bytes

-- One round of the second loop. Without an entry nothing changes, in this round and in the next.
unfoldable pub drop_first : OrdMap String Entry → Cache → Cache
unfolding drop_entry
drop_first [] c = c
drop_first ((oldest, entry) ∷ rest) c = drop_entry oldest c

-- The second loop drops the oldest entry as long as a limit is passed. The fuel is the number of
-- entries, one of which goes in each round.
unfoldable pub drop_oldest : ℕ → Cache → Cache
unfolding drop_first
drop_oldest zero c = c
drop_oldest (suc fuel) c = elim (over_limit c) [
  | false ↦ c
  | true ↦ drop_oldest fuel (drop_first c.entries c)
]

unfoldable pub evict_overflow : ℕ → Cache → Cache
unfolding drop_expired drop_oldest prune_aliases
evict_overflow now c =
    let fresh = drop_expired now c.entries c in
    prune_aliases (drop_oldest (length fresh.entries) fresh)

unfoldable pub build_serve_payload : Entry → Option Payload
unfolding clone_bytes
build_serve_payload entry = elim (clone_bytes (array_buffer entry.bytes)) [
  | none ↦ none
  | some bytes ↦ some (record {
    bytes = bytes;
    content_type = entry.content_type;
    status = entry.status;
    byte_length = length bytes;
  })
]

-- Each waiter is handed the value; its own copy is the same list of bytes.
abbrev pub resolve_all : List ℕ → Option Payload → List (ℕ × Option Payload)
resolve_all [] payload = []
resolve_all (w ∷ ws) payload = (w, payload) ∷ resolve_all ws payload

unfoldable pub wake_waiters : String → Option Payload → Cache → Cache
wake_waiters key payload c = elim (OrdMap.get key c.waiters_by_key) [
  | none ↦ c
  | some waiters ↦ record c {
    waiters_by_key = OrdMap.delete key c.waiters_by_key;
    woken = c.woken ++ resolve_all waiters payload;
  }
]

-- `for (const [alias, primary] of aliases.entries()) if (primary === key) wakeWaiters(alias, …)`
unfoldable pub wake_aliases : String → Option Payload → OrdMap String String → Cache → Cache
unfolding wake_waiters
wake_aliases key payload [] c = c
wake_aliases key payload ((alias, primary) ∷ rest) c =
    wake_aliases key payload rest (if primary === key then wake_waiters alias payload c else c)
