-- ===== src/HotBytes/Served.antt =====
-- A put in src/page/cache/hot-byte-cache.js is served by the lookups after it.
use aegis_stream.Prelude.Keys.{string_eq}
use aegis_stream.Prelude.OrdMap
use aegis_stream.Prelude.{
  ap, ◌∙◌, ℕ, ◌+◌, ◌≤◌, ◌<◌, ◌≡◌, refl, String, Bool, true, false, not, Option, none, some, List,
  arith, length, ltb, leb, ◌||◌,
}
use aegis_stream.HotBytes.Resolving.{resolve_hot_key}
use aegis_stream.HotBytes.Store.{
  Entry, Payload, Cache, Env, Bytes, max_entry_bytes, entry_ttl_ms, is_serving_enabled, is_expired,
  follow_alias, resolve_primary_key, build_serve_payload, clone_bytes,
}
use aegis_stream.HotBytes.Methods.{
  Meta, new_entry, is_fresh_twin, put_cloned, put_hot_bytes, store_entry, serve_entry,
  serve_primary, get_hot_bytes,
}
use aegis_stream.HotBytes.Kept.{Inv}
use aegis_stream.HotBytes.Roundtrip.{get-store_entry}

-- Whether a put stores its bytes: it does not if the key has bytes of the same size that are less
-- than two seconds old.
abbrev pub replaces : ℕ → List ℕ → Option Entry → Bool
replaces now cloned none = true
replaces now cloned (some existing) = not (is_fresh_twin now cloned existing)

abbrev pub payload_of : Entry → Payload
payload_of entry = record {
  bytes = entry.bytes;
  content_type = entry.content_type;
  status = entry.status;
  byte_length = length entry.bytes;
}

put_cloned-replaces :
    (env : Env) (url : Option String) (opts : Meta) (key : String) (cloned : List ℕ)
    (found : Option Entry) (c : Cache)
    → replaces env.now cloned found ≡ true
    → put_cloned env url opts key cloned found c
      ≡ store_entry env url opts key (new_entry env opts cloned) c
unfolding put_cloned
put_cloned-replaces env url opts key cloned none c h = refl
put_cloned-replaces env url opts key cloned (some existing) c h =
    let stale : is_fresh_twin env.now cloned existing ≡ false = ground (arith, h) in
    rw (stale, put_cloned) refl

serve-found :
    (now : ℕ) (key : String) (entry : Entry) (c : Cache)
    → OrdMap.get key c.entries ≡ some entry
    → is_expired now entry ≡ false
    → 0 < length entry.bytes
    → (serve_primary now (follow_alias key c)).0 ≡ some (payload_of entry)
unfolding serve_primary follow_alias serve_entry build_serve_payload clone_bytes
serve-found now key entry c found fresh nonempty =
    let filled : leb (length entry.bytes) 0 ≡ false = ground (arith, nonempty) in
    rw
      (
        found, found, fresh, filled, follow_alias, serve_primary, serve_entry, build_serve_payload,
        clone_bytes,
      )
      refl

get-found :
    (later : Env) (url cache_key : Option String) (key : String) (entry : Entry) (c : Cache)
    → is_serving_enabled later ≡ true
    → resolve_hot_key later.resolvers url cache_key ≡ some key
    → OrdMap.get key c.entries ≡ some entry
    → is_expired later.now entry ≡ false
    → 0 < length entry.bytes
    → (get_hot_bytes later url cache_key c).0 ≡ some (payload_of entry)
unfolding get_hot_bytes resolve_primary_key
get-found later url cache_key key entry c on k found fresh nonempty =
    rw (on, k, get_hot_bytes, resolve_primary_key)
      (serve-found later.now key entry c found fresh nonempty)

stored-put :
    (env : Env) (url : Option String) (bytes : Bytes) (opts : Meta) (key : String) (cloned : List ℕ)
    (c : Cache)
    → is_serving_enabled env ≡ true
    → resolve_hot_key env.resolvers url opts.cache_key ≡ some key
    → clone_bytes bytes ≡ some cloned
    → 0 < length cloned
    → length cloned ≤ max_entry_bytes
    → replaces env.now cloned (OrdMap.get key c.entries) ≡ true
    → (put_hot_bytes env url bytes opts c).1
      ≡ store_entry env url opts key (new_entry env opts cloned) c
unfolding put_hot_bytes
stored-put env url bytes opts key cloned c on k copied nonempty fits new =
    let allowed : (leb (length cloned) 0 || ltb max_entry_bytes (length cloned)) ≡ false =
      ground (arith, nonempty, fits) in
    rw (on, k, copied, allowed, put_hot_bytes)
      (put_cloned-replaces env url opts key cloned (OrdMap.get key c.entries) c new)

-- A lookup with the same URL and cache key, up to two minutes after a put that stores its bytes,
-- gets these bytes, with the content type and the status of the put: the entry just stored is never
-- itself evicted.
pub get_hot_bytes-put_hot_bytes :
    (env later : Env) (url : Option String) (bytes : Bytes) (opts : Meta) (key : String)
    (cloned : List ℕ) (c : Cache)
    → Inv c
    → is_serving_enabled env ≡ true
    → is_serving_enabled later ≡ true
    → resolve_hot_key env.resolvers url opts.cache_key ≡ some key
    → resolve_hot_key later.resolvers url opts.cache_key ≡ some key
    → clone_bytes bytes ≡ some cloned
    → 0 < length cloned
    → length cloned ≤ max_entry_bytes
    → replaces env.now cloned (OrdMap.get key c.entries) ≡ true
    → later.now ≤ env.now + entry_ttl_ms
    → (get_hot_bytes later url opts.cache_key (put_hot_bytes env url bytes opts c).1).0
      ≡ some (payload_of (new_entry env opts cloned))
get_hot_bytes-put_hot_bytes env later url bytes opts key cloned c i on on' k k' copied nonempty fits
      new soon =
    let entry = new_entry env opts cloned in
    let fresh : is_expired later.now entry ≡ false = ground (arith, soon) in
    ap (λ d. (get_hot_bytes later url opts.cache_key d).0)
      (stored-put env url bytes opts key cloned c on k copied nonempty fits new)
    ∙ get-found later url opts.cache_key key entry (store_entry env url opts key entry c) on' k'
        (get-store_entry env url opts key cloned c nonempty fits i.books) fresh nonempty
