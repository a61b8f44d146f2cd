-- ===== src/HotBytes/Methods.antt =====
-- The methods of src/page/cache/hot-byte-cache.js. A method returns its result and the new state.
use aegis_stream.Prelude.Keys.{◌===◌, string_eq}
use aegis_stream.Prelude.OrdMap
use aegis_stream.Prelude.OrdMap.{OrdMap}
use aegis_stream.Prelude.{
  ℕ, ◌+◌, ◌-◌, String, Bool, true, false, not, ◌&&◌, ◌||◌, Option, none, some, List, ltb, leb, ◌==◌,
  if◌then◌else◌, length,
}
use aegis_stream.HotBytes.Store.{
  Entry, Payload, Cache, Env, Bytes, max_entry_bytes, is_serving_enabled, clone_bytes, drop_entry,
  touch_entry, resolve_primary_key, register_alias, is_expired, evict_overflow, build_serve_payload,
  wake_waiters, wake_aliases,
}
use aegis_stream.HotBytes.Resolving.{resolve_hot_key}

pub record Meta : Type 0 where
  pub cache_key : Option String
  pub alias_key : Option String
  pub page_url : Option String
  pub content_type : Option String
  pub status : Option ℕ

abbrev pub refresh_window_ms : ℕ
refresh_window_ms = 2_000

abbrev or_else {ℓ} : {A : Type ℓ} → Option A → A → A
or_else none d = d
or_else (some a) d = a

-- `Number(meta.status) || 200`
abbrev status_or : Option ℕ → ℕ
status_or none = 200
status_or (some n) = if n == 0 then 200 else n

abbrev pub is_other_url : Option String → Option String → Bool
is_other_url none key_or_url = false
is_other_url (some page) none = true
is_other_url (some page) (some url) = not (page === url)

-- The two `registerAlias` calls of `putHotBytes`.
unfoldable pub register_put_aliases : Env → Option String → Meta → String → Cache → Cache
unfolding resolve_hot_key register_alias
register_put_aliases env key_or_url opts key c =
    let aliased = register_alias (resolve_hot_key env.resolvers opts.alias_key none) key c in
    if is_other_url opts.page_url key_or_url
    then register_alias (resolve_hot_key env.resolvers opts.page_url none) key aliased
    else aliased

abbrev pub is_fresh_twin : ℕ → List ℕ → Entry → Bool
is_fresh_twin now cloned existing =
    existing.byte_length == length cloned && ltb (now - existing.stored_at) refresh_window_ms

unfoldable pub wake_key : String → Option Payload → Cache → Cache
unfolding wake_waiters wake_aliases
wake_key key none c = c
wake_key key (some payload) c =
    let served = wake_waiters key (some payload) c in
    wake_aliases key (some payload) served.aliases served

abbrev pub refreshed : Env → Meta → Entry → Entry
refreshed env opts existing = record existing {
  stored_at = env.now;
  content_type = or_else opts.content_type existing.content_type;
}

-- A put of the same size shortly after the last one: the stored bytes stay.
unfoldable pub refresh_entry : Env → Option String → Meta → String → Entry → Cache → Cache
unfolding touch_entry register_put_aliases build_serve_payload wake_key
refresh_entry env key_or_url opts key existing c =
    let entry = refreshed env opts existing in
    let touched = touch_entry key (record c { entries = OrdMap.set key entry c.entries }) in
    wake_key key (build_serve_payload entry) (register_put_aliases env key_or_url opts key touched)

abbrev pub new_entry : Env → Meta → List ℕ → Entry
new_entry env opts cloned = record {
  bytes = cloned;
  content_type = or_else opts.content_type "application/octet-stream";
  status = status_or opts.status;
  byte_length = length cloned;
  stored_at = env.now;
}

-- `entries.delete(key)` for an entry that is replaced; its aliases stay.
unfoldable pub forget_existing : String → Cache → Cache
forget_existing key c = elim (OrdMap.get key c.entries) [
  | none ↦ c
  | some existing ↦ record c {
    total_bytes = c.total_bytes - existing.byte_length;
    entries = OrdMap.delete key c.entries;
  }
]

unfoldable pub add_entry : String → Entry → Cache → Cache
add_entry key entry c = record c {
  entries = OrdMap.set key entry c.entries;
  total_bytes = c.total_bytes + entry.byte_length;
}

unfoldable pub store_entry : Env → Option String → Meta → String → Entry → Cache → Cache
unfolding forget_existing add_entry register_put_aliases evict_overflow build_serve_payload wake_key
store_entry env key_or_url opts key entry c =
    let stored = add_entry key entry (forget_existing key c) in
    let kept = evict_overflow env.now (register_put_aliases env key_or_url opts key stored) in
    wake_key key (build_serve_payload entry) kept

unfoldable pub put_cloned :
    Env → Option String → Meta → String → List ℕ → Option Entry → Cache → Cache
unfolding refresh_entry store_entry
put_cloned env key_or_url opts key cloned none c =
    store_entry env key_or_url opts key (new_entry env opts cloned) c
put_cloned env key_or_url opts key cloned (some existing) c =
    if is_fresh_twin env.now cloned existing
    then refresh_entry env key_or_url opts key existing c
    else store_entry env key_or_url opts key (new_entry env opts cloned) c

-- `putHotBytes`. The call of `ns.noteLocalCacheKey` at its end goes to another script.
unfoldable pub put_hot_bytes : Env → Option String → Bytes → Meta → Cache → Bool × Cache
unfolding is_serving_enabled resolve_hot_key clone_bytes put_cloned
put_hot_bytes env key_or_url bytes opts c =
    if is_serving_enabled env
    then elim (resolve_hot_key env.resolvers key_or_url opts.cache_key) [
      | none ↦ (false, c)
      | some key ↦ elim (clone_bytes bytes) [
        | none ↦ (false, c)
        | some cloned ↦
            if leb (length cloned) 0 || ltb max_entry_bytes (length cloned)
            then (false, c)
            else (true, put_cloned env key_or_url opts key cloned (OrdMap.get key c.entries) c)
      ]
    ]
    else (false, c)

-- The end of `getHotBytes`, on the entry that it found and touched.
unfoldable pub serve_entry : ℕ → String → Entry → Cache → Option Payload × Cache
unfolding drop_entry build_serve_payload
serve_entry now primary entry c =
    if is_expired now entry
    then (none, drop_entry primary c)
    else elim (build_serve_payload entry) [
      | none ↦ (none, drop_entry primary c)
      | some payload ↦ (some payload, c)
    ]

unfoldable pub serve_primary : ℕ → Option String × Cache → Option Payload × Cache
unfolding touch_entry serve_entry
serve_primary now (none, c) = (none, c)
serve_primary now (some primary, c) = elim (OrdMap.get primary c.entries) [
  | none ↦ (none, c)
  | some entry ↦ serve_entry now primary entry (touch_entry primary c)
]

unfoldable pub get_hot_bytes : Env → Option String → Option String → Cache → Option Payload × Cache
unfolding is_serving_enabled resolve_primary_key serve_primary
get_hot_bytes env key_or_url cache_key c =
    if is_serving_enabled env
    then serve_primary env.now (resolve_primary_key env.resolvers key_or_url cache_key c)
    else (none, c)

unfoldable pub check_primary : ℕ → Option String × Cache → Bool × Cache
unfolding drop_entry
check_primary now (none, c) = (false, c)
check_primary now (some primary, c) = elim (OrdMap.get primary c.entries) [
  | none ↦ (false, c)
  | some entry ↦ if is_expired now entry then (false, drop_entry primary c) else (true, c)
]

unfoldable pub has_hot_bytes : Env → Option String → Option String → Cache → Bool × Cache
unfolding is_serving_enabled resolve_primary_key check_primary
has_hot_bytes env key_or_url cache_key c =
    if is_serving_enabled env
    then check_primary env.now (resolve_primary_key env.resolvers key_or_url cache_key c)
    else (false, c)

unfoldable pub alias_keys : String → String → Cache → Bool × Cache
unfolding register_alias
alias_keys from_key to_key c =
    if from_key === to_key
    then (false, c)
    else if OrdMap.has to_key c.entries
    then (true, register_alias (some from_key) to_key c)
    else if OrdMap.has from_key c.entries
    then (true, register_alias (some to_key) from_key c)
    else elim (OrdMap.get from_key c.aliases) [
      | none ↦ (false, c)
      | some from_primary ↦
          if OrdMap.has from_primary c.entries
          then (true, register_alias (some to_key) from_primary c)
          else (false, c)
    ]

unfoldable pub alias_hot_bytes : Env → Option String → Option String → Cache → Bool × Cache
unfolding resolve_hot_key alias_keys
alias_hot_bytes env from_key_or_url to_key_or_url c =
    elim (resolve_hot_key env.resolvers from_key_or_url none) [
      | none ↦ (false, c)
      | some from_key ↦ elim (resolve_hot_key env.resolvers to_key_or_url none) [
        | none ↦ (false, c)
        | some to_key ↦ alias_keys from_key to_key c
      ]
    ]
