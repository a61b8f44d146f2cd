-- ===== src/Coalescer/Fetches.antt =====
-- The fetches of src/page/network/network-fetch-coalescer.js: how one begins, is shared and ends.
use aegis_stream.Prelude.Keys.{string_eq, nat_eq}
use aegis_stream.Prelude.OrdMap
use aegis_stream.Prelude.OrdMap.{OrdMap}
use aegis_stream.Prelude.{
  ℕ, ◌+◌, String, Bool, true, false, not, Option, none, some, List, [], ◌∷◌, ◌++◌, ltb, ◌==◌,
  if◌then◌else◌, retain,
}
use aegis_stream.Coalescer.{
  resolve_collapse_wait_timeout_ms, FetchResult, FactoryEnd, HotPut, Wire, Flight, Wires,
  purge_stale_coalesced_entries, get_coalesce_entry, forget_key, put_wire, returned, threw,
}

-- The promise that the caller gets: a fetch of this table, one of its own, or none.
pub data Begun : Type 0 where
  shared : ℕ → Begun
  unshared missing_key : Begun

abbrev pub note_url : String → Option String → Wires → Wires
note_url key none w = w
note_url key (some url) w = record w {
  coalesce_key_to_url = OrdMap.set key url w.coalesce_key_to_url;
}

abbrev pub note_first_url : String → Option String → Wires → Wires
note_first_url key url w = if OrdMap.has key w.coalesce_key_to_url then w else note_url key url w

abbrev pub new_wire : ℕ → ℕ → Wire
new_wire now fetch = record {
  fetch = fetch;
  started_at = now;
  consumers = 0;
  pending_release = false;
}

-- The entry, and the async body up to its wait for the factory.
abbrev pub start_fetch : ℕ → String → Option String → Wires → Wires
start_fetch now key url w =
    let noted = note_url key url (put_wire key (new_wire now w.next_fetch) w) in
    record noted {
      flights =
          record { fetch = w.next_fetch; key = key; representative_url = url; began_at = now }
          ∷ w.flights;
      next_fetch = w.next_fetch + 1;
    }

abbrev pub begin_key : ℕ → String → Option String → Wires → Begun × Wires
begin_key now key url w = elim (OrdMap.get key w.inflight_by_key) [
  | some wire ↦ (shared wire.fetch, note_first_url key url w)
  | none ↦ (shared w.next_fetch, start_fetch now key url w)
]

-- `has_factory` is `typeof factory === "function"`; any other factory is taken to be absent.
unfoldable pub begin_coalesced_network_fetch :
    ℕ → Option String → Bool → Option String → Wires → Begun × Wires
unfolding purge_stale_coalesced_entries
begin_coalesced_network_fetch now key false url w = (missing_key, w)
begin_coalesced_network_fetch now none true url w = (unshared, w)
begin_coalesced_network_fetch now (some key) true url w =
    begin_key now key url (purge_stale_coalesced_entries now w)

abbrev pub failed : String → FetchResult
failed message = record {
  ok = false;
  bytes = none;
  content_type = none;
  status = none;
  error = some message;
}

-- What the promise is resolved with.
unfoldable pub resolved_with : FactoryEnd → FetchResult
resolved_with (returned (some result)) = result
resolved_with (returned none) = failed "empty-result"
resolved_with (threw (some message) text) = failed message
resolved_with (threw none (some text)) = failed text
resolved_with (threw none none) = failed "coalesced-fetch-failed"

abbrev or_text : Option String → String → String
or_text none fallback = fallback
or_text (some s) fallback = s

abbrev or_status : Option ℕ → ℕ
or_status none = 200
or_status (some n) = if n == 0 then 200 else n

-- The call of `ns.putHotBytes`, where there is one, which does not throw; a body that threw makes none.
unfoldable pub hot_put : Flight → FetchResult → List HotPut
hot_put flight result = elim result.bytes [
  | none ↦ []
  | some bytes ↦
      if result.ok
      then record {
        key = flight.key;
        bytes = bytes;
        content_type = or_text result.content_type "application/octet-stream";
        status = or_status result.status;
        page_url = flight.representative_url;
      }
        ∷ []
      else []
]

abbrev mark_pending : String → Wire → Wires → Wires
mark_pending key wire w =
    if ltb 0 wire.consumers
    then put_wire key (record wire { pending_release = true }) w
    else forget_key key w

-- The `finally` block.
unfoldable pub retire : Flight → Wires → Wires
retire flight w = elim (OrdMap.get flight.key w.inflight_by_key) [
  | none ↦ w
  | some wire ↦ if wire.fetch == flight.fetch then mark_pending flight.key wire w else w
]

abbrev pub find_flight : ℕ → List Flight → Option Flight
find_flight fetch [] = none
find_flight fetch (f ∷ fs) = if f.fetch == fetch then some f else find_flight fetch fs

abbrev pub drop_flight : ℕ → List Flight → List Flight
drop_flight fetch = retain λ f. not (f.fetch == fetch)

-- `serves` is whether `ns.putHotBytes` is there.
unfoldable pub puts_of : Bool → Flight → FetchResult → List HotPut
unfolding hot_put
puts_of serves flight result = if serves then hot_put flight result else []

unfoldable pub end_flight : Bool → Flight → FetchResult → Wires → Wires
end_flight serves flight result w = retire flight (record w {
  flights = drop_flight flight.fetch w.flights;
  settled = (flight.fetch, result) ∷ w.settled;
  hot_puts = puts_of serves flight result ++ w.hot_puts;
})

unfoldable pub finish_fetch : Bool → ℕ → FactoryEnd → Wires → Wires
finish_fetch serves fetch end w = elim (find_flight fetch w.flights) [
  | none ↦ w
  | some flight ↦ end_flight serves flight (resolved_with end) w
]

-- The promise to wait for, and for how long; then `null`.
unfoldable pub join_coalesced_network_fetch :
    ℕ → Option ℕ → Option String → Option ℕ → Wires → Option (ℕ × ℕ) × Wires
unfolding get_coalesce_entry
join_coalesced_network_fetch now p95 key timeout_ms w =
    let (found, fresh) = get_coalesce_entry now key w in
    elim found [
      | none ↦ (none, fresh)
      | some wire ↦ (some (wire.fetch, resolve_collapse_wait_timeout_ms p95 timeout_ms), fresh)
    ]
