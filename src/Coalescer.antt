-- ===== src/Coalescer.antt =====
-- src/page/network/network-fetch-coalescer.js: one fetch in flight for each key on the page.
--
-- The operations take the key that `resolveNetworkCoalesceKey` gives for their URL and cache key;
-- a key that is null or empty is `none`. An entry of `inflightByKey` is known by the number of its
-- promise, so that `=== entry` compares numbers. The async body of a fetch runs until its factory
-- ends, and then to its end: that is `finish_fetch`.
pub mod Fetches
pub mod Delivery
pub mod Tracks
pub mod Flights
pub mod Runs
pub mod Settled
pub mod Endings
pub mod Held
mod Tests
use aegis_stream.Prelude.Keys.{◌===◌, string_eq, nat_eq}
use aegis_stream.Prelude.OrdMap
use aegis_stream.Prelude.OrdMap.{OrdMap}
use aegis_stream.Prelude.OrdSet
use aegis_stream.Prelude.{
  ℕ, ◌+◌, ◌-◌, ◌*◌, String, Bool, true, false, not, ◌&&◌, Option, none, some, List, [], ◌∷◌, ◌++◌,
  ltb, ◌==◌, if◌then◌else◌, min, max, retain,
}

abbrev pub coalesce_ttl_ms : ℕ
coalesce_ttl_ms = 12_000

abbrev pub collapse_wait_min_ms : ℕ
collapse_wait_min_ms = 1_500

abbrev pub collapse_wait_max_ms : ℕ
collapse_wait_max_ms = 8_000

abbrev pub collapse_wait_p95_multiplier : ℕ
collapse_wait_p95_multiplier = 2

-- An argument that is no positive finite number is `none` or 0; `p95` is `ns.networkFirstByteP95Ms`.
pub derived_wait : Option ℕ → ℕ
derived_wait none = collapse_wait_max_ms
derived_wait (some p95) =
    if ltb 0 p95 then p95 * collapse_wait_p95_multiplier else collapse_wait_max_ms

pub clamp_wait : ℕ → ℕ
clamp_wait ms = max collapse_wait_min_ms (min collapse_wait_max_ms ms)

pub resolve_collapse_wait_timeout_ms : Option ℕ → Option ℕ → ℕ
unfolding derived_wait clamp_wait
resolve_collapse_wait_timeout_ms p95 none = clamp_wait (derived_wait p95)
resolve_collapse_wait_timeout_ms p95 (some override_ms) =
    if ltb 0 override_ms then clamp_wait override_ms else clamp_wait (derived_wait p95)

pub record FetchResult : Type 0 where
  pub ok : Bool
  pub bytes : Option (List ℕ)
  pub content_type : Option String
  pub status : Option ℕ
  pub error : Option String

-- How the factory ends: with a value (`none` is a falsy one), or by throwing, with the message of the
-- error and its text, where they are not empty.
pub data FactoryEnd : Type 0 where
  returned : Option FetchResult → FactoryEnd
  threw : Option String → Option String → FactoryEnd

-- A call of `ns.putHotBytes`.
pub record HotPut : Type 0 where
  pub key : String
  pub bytes : List ℕ
  pub content_type : String
  pub status : ℕ
  pub page_url : Option String

pub record Wire : Type 0 where
  pub fetch : ℕ
  pub started_at : ℕ
  pub consumers : ℕ
  pub pending_release : Bool

-- An async body whose factory has not ended: what its closure holds, and when it began.
pub record Flight : Type 0 where
  pub fetch : ℕ
  pub key : String
  pub representative_url : Option String
  pub began_at : ℕ

pub record Wires : Type 0 where
  pub inflight_by_key : OrdMap String Wire
  pub coalesce_key_to_url : OrdMap String String
  pub flights : List Flight
  pub settled : List (ℕ × FetchResult)
  pub hot_puts : List HotPut
  pub next_fetch : ℕ

unfoldable pub no_wires : Wires
no_wires = record {
  inflight_by_key = [];
  coalesce_key_to_url = [];
  flights = [];
  settled = [];
  hot_puts = [];
  next_fetch = 0;
}

abbrev pub is_stale : ℕ → ℕ → Bool
is_stale now began_at = ltb coalesce_ttl_ms (now - began_at)

unfoldable pub purge_stale_coalesced_entries : ℕ → Wires → Wires
purge_stale_coalesced_entries now w = record w {
  inflight_by_key = retain (λ (key, wire). not (is_stale now wire.started_at)) w.inflight_by_key;
}

unfoldable pub get_coalesce_entry : ℕ → Option String → Wires → Option Wire × Wires
unfolding purge_stale_coalesced_entries
get_coalesce_entry now none w = (none, purge_stale_coalesced_entries now w)
get_coalesce_entry now (some key) w =
    let fresh = purge_stale_coalesced_entries now w in (OrdMap.get key fresh.inflight_by_key, fresh)

unfoldable pub has_active_page_wire : ℕ → Option String → Wires → Bool × Wires
unfolding purge_stale_coalesced_entries
has_active_page_wire now none w = (false, purge_stale_coalesced_entries now w)
has_active_page_wire now (some key) w =
    let fresh = purge_stale_coalesced_entries now w in (OrdMap.has key fresh.inflight_by_key, fresh)

abbrev pub consumers_of : Option Wire → ℕ
consumers_of none = 0
consumers_of (some wire) = wire.consumers

unfoldable pub get_coalesce_consumer_count : ℕ → Option String → Wires → ℕ × Wires
unfolding get_coalesce_entry
get_coalesce_consumer_count now key w =
    let (wire, fresh) = get_coalesce_entry now key w in (consumers_of wire, fresh)

unfoldable pub is_coalesce_abort_locked : ℕ → Option String → Wires → Bool × Wires
unfolding get_coalesce_consumer_count
is_coalesce_abort_locked now key w =
    let (count, fresh) = get_coalesce_consumer_count now key w in (ltb 0 count, fresh)

unfoldable pub attach_coalesce_consumer : Option String → Wires → ℕ × Wires
attach_coalesce_consumer none w = (0, w)
attach_coalesce_consumer (some key) w = elim (OrdMap.get key w.inflight_by_key) [
  | none ↦ (0, w)
  | some wire ↦ (
    wire.consumers + 1,
    record w {
      inflight_by_key =
          OrdMap.set key (record wire { consumers = wire.consumers + 1 }) w.inflight_by_key;
    },
  )
]

-- `inflightByKey.delete(key)` and `coalesceKeyToUrl.delete(key)`
abbrev pub forget_key : String → Wires → Wires
forget_key key w = record w {
  inflight_by_key = OrdMap.delete key w.inflight_by_key;
  coalesce_key_to_url = OrdMap.delete key w.coalesce_key_to_url;
}

abbrev pub put_wire : String → Wire → Wires → Wires
put_wire key wire w = record w { inflight_by_key = OrdMap.set key wire w.inflight_by_key }

abbrev pub count_down : Wire → Wire
count_down wire = record wire { consumers = wire.consumers - 1 }

abbrev pub release_wire : String → Wire → Wires → Wires
release_wire key wire w =
    if wire.consumers == 0 && wire.pending_release then forget_key key w else put_wire key wire w

unfoldable pub release_coalesce_consumer : Option String → Wires → ℕ × Wires
release_coalesce_consumer none w = (0, w)
release_coalesce_consumer (some key) w = elim (OrdMap.get key w.inflight_by_key) [
  | none ↦ (0, w)
  | some wire ↦ (wire.consumers - 1, release_wire key (count_down wire) w)
]

pub protected_over : OrdMap String String → OrdMap String Wire → List String → List String
protected_over urls [] found = found
protected_over urls ((key, wire) ∷ rest) found = protected_over urls rest (
    if ltb 0 wire.consumers
    then elim (OrdMap.get key urls) [ none ↦ found | some url ↦ OrdSet.add url found ]
    else found)

unfoldable pub collect_coalesce_protected_urls : Wires → List String
unfolding protected_over
collect_coalesce_protected_urls w = protected_over w.coalesce_key_to_url w.inflight_by_key []
