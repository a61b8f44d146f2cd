-- ===== src/Prefetch/Inflight.antt =====
-- src/background/prefetch/state/inflight-consumers.js: which players hold an in-flight prefetch.
--
-- An entry of `state.inflightPrefetches` is under one key alone, so a change of the shared object
-- is a change at that key. A tab is a number; a `tabId` that is no finite number is `none`.
pub mod Entries
pub mod Holds
pub mod Consumers
pub mod Deferred
use aegis_stream.Prelude.Keys.{◌===◌, string_eq, nat_eq}
use aegis_stream.Prelude.OrdMap
use aegis_stream.Prelude.OrdMap.{OrdMap}
use aegis_stream.Prelude.{
  ℕ, zero, suc, ◌+◌, ◌-◌, String, Bool, true, false, not, ◌&&◌, Option, none, some, List, [], ◌∷◌,
  ltb, ◌==◌, if◌then◌else◌, length, retain, ite, ℤ, pos, negsuc,
}

pub record Entry : Type 0 where
  pub tab_id : Option ℕ
  pub consumers : ℕ
  pub attached_tabs : Option (List ℕ)
  pub pending_release : Bool
  pub abort_locked : Bool

-- The functions of other scripts that give a URL its key, where they are there.
pub record Normalizers : Type 0 where
  pub resolve_prefetch_coalesce_key : Option (String → Option String)
  pub strip_hash : Option (String → Option String)

-- The results of the resolvers are read as keys, where the empty string is `none`.
unfoldable pub normalize_inflight_key : Normalizers → Option String → Option String
normalize_inflight_key n none = none
normalize_inflight_key n (some url) =
    if url === "" then none else elim n.resolve_prefetch_coalesce_key [
      | some resolve ↦ resolve url
      | none ↦ elim n.strip_hash [ some strip ↦ strip url | none ↦ some url ]
    ]

-- `Number.isFinite(tabId) && entry.tabId !== tabId`
abbrev pub is_other_tab : Option ℕ → Option ℕ → Bool
is_other_tab owner none = false
is_other_tab none (some tab) = true
is_other_tab (some owner) (some tab) = not (owner === tab)

abbrev pub sync_inflight_abort_lock : Entry → Entry
sync_inflight_abort_lock entry = record entry { abort_locked = ltb 0 entry.consumers }

-- `Set.prototype.add`
abbrev pub add_tab : ℕ → List ℕ → List ℕ
add_tab tab [] = tab ∷ []
add_tab tab (t ∷ ts) = ite (nat_eq.dec t tab) (t ∷ ts) (t ∷ add_tab tab ts)

abbrev pub remove_tab : ℕ → List ℕ → List ℕ
remove_tab tab = retain λ t. not (t === tab)

abbrev pub tabs_of : Option (List ℕ) → List ℕ
tabs_of none = []
tabs_of (some tabs) = tabs

abbrev pub attach_entry : Option ℕ → Entry → Entry
attach_entry none entry =
    sync_inflight_abort_lock
      (record entry { consumers = entry.consumers + 1; pending_release = false })
attach_entry (some tab) entry = sync_inflight_abort_lock (record entry {
  attached_tabs = some (add_tab tab (tabs_of entry.attached_tabs));
  consumers = length (add_tab tab (tabs_of entry.attached_tabs));
  pending_release = false;
})

abbrev pub count_down : Entry → Entry
count_down entry = sync_inflight_abort_lock (record entry { consumers = entry.consumers - 1 })

abbrev pub release_entry : Option ℕ → Option (List ℕ) → Entry → Entry
release_entry none tabs entry = count_down entry
release_entry (some tab) none entry = count_down entry
release_entry (some tab) (some tabs) entry = sync_inflight_abort_lock (record entry {
  attached_tabs = some (remove_tab tab tabs);
  consumers = length (remove_tab tab tabs);
})

abbrev pub Store : Type 0
Store = OrdMap String Entry

unfoldable pub attach_key : String → Option ℕ → Store → ℕ × Store
attach_key key tab m = elim (OrdMap.get key m) [
  | none ↦ (0, m)
  | some entry ↦
      if is_other_tab entry.tab_id tab
      then (entry.consumers, m)
      else ((attach_entry tab entry).consumers, OrdMap.set key (attach_entry tab entry) m)
]

unfoldable pub attach_inflight_consumer : Normalizers → Option String → Option ℕ → Store → ℕ × Store
unfolding normalize_inflight_key attach_key
attach_inflight_consumer n url tab m = elim (normalize_inflight_key n url) [
  | none ↦ (0, m)
  | some key ↦ attach_key key tab m
]

-- Whether the release of the last consumer takes the entry out.
abbrev pub is_done : Entry → Bool
is_done entry = entry.consumers == 0 && entry.pending_release

abbrev pub put_released : String → Entry → Store → Store
put_released key entry m = if is_done entry then OrdMap.delete key m else OrdMap.set key entry m

unfoldable pub release_key : String → Option ℕ → Store → ℕ × Store
release_key key tab m = elim (OrdMap.get key m) [
  | none ↦ (0, m)
  | some entry ↦ if is_other_tab entry.tab_id tab then (entry.consumers, m) else (
    (release_entry tab entry.attached_tabs entry).consumers,
    put_released key (release_entry tab entry.attached_tabs entry) m,
  )
]

unfoldable pub release_inflight_consumer :
    Normalizers → Option String → Option ℕ → Store → ℕ × Store
unfolding normalize_inflight_key release_key
release_inflight_consumer n url tab m = elim (normalize_inflight_key n url) [
  | none ↦ (0, m)
  | some key ↦ release_key key tab m
]

unfoldable pub get_inflight_prefetch_entry : Normalizers → Option String → Store → Option Entry
unfolding normalize_inflight_key
get_inflight_prefetch_entry n url m = elim (normalize_inflight_key n url) [
  | none ↦ none
  | some key ↦ OrdMap.get key m
]

unfoldable pub is_inflight_abort_locked : Normalizers → Option String → Option ℕ → Store → Bool
unfolding get_inflight_prefetch_entry
is_inflight_abort_locked n url tab m = elim (get_inflight_prefetch_entry n url m) [
  | none ↦ false
  | some entry ↦ if is_other_tab entry.tab_id tab then false else ltb 0 entry.consumers
]

-- `defer` is `options.defer !== false`.
unfoldable pub try_release_key : String → Bool → Store → Bool × Store
try_release_key key defer m = elim (OrdMap.get key m) [
  | none ↦ (false, m)
  | some entry ↦
      if ltb 0 entry.consumers
      then (false, OrdMap.set key (record entry { pending_release = defer }) m)
      else (true, OrdMap.delete key m)
]

unfoldable pub try_release_inflight_entry :
    Normalizers → Option String → Bool → Store → Bool × Store
unfolding normalize_inflight_key try_release_key
try_release_inflight_entry n url defer m = elim (normalize_inflight_key n url) [
  | none ↦ (false, m)
  | some key ↦ try_release_key key defer m
]

unfoldable pub attach_times : Normalizers → Option String → Option ℕ → ℕ → ℕ × Store → ℕ × Store
unfolding attach_inflight_consumer
attach_times n url tab zero r = r
attach_times n url tab (suc i) r = attach_times n url tab i (attach_inflight_consumer n url tab r.1)

unfoldable pub release_times : Normalizers → Option String → Option ℕ → ℕ → ℕ × Store → ℕ × Store
unfolding release_inflight_consumer
release_times n url tab zero r = r
release_times n url tab (suc i) r =
    release_times n url tab i (release_inflight_consumer n url tab r.1)

-- `Number(getInflightPrefetchEntry(url)?.consumers) || 0`
abbrev pub consumers_of : Option Entry → ℕ
consumers_of none = 0
consumers_of (some entry) = entry.consumers

-- A delta that is no finite number is `none`.
unfoldable pub mutate_inflight_consumer :
    Normalizers → Option String → Option ℤ → Option ℕ → Store → ℕ × Store
unfolding attach_times release_times get_inflight_prefetch_entry
mutate_inflight_consumer n url none tab m = (0, m)
mutate_inflight_consumer n url (some (pos zero)) tab m = (0, m)
mutate_inflight_consumer n url (some (pos (suc i))) tab m = attach_times n url tab (suc i) (0, m)
mutate_inflight_consumer n url (some (negsuc i)) tab m =
    release_times n url tab (suc i) (consumers_of (get_inflight_prefetch_entry n url m), m)
