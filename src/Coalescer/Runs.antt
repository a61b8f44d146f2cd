-- ===== src/Coalescer/Runs.antt =====
-- Any run of the calls of src/page/network/network-fetch-coalescer.js.
use aegis_stream.Prelude.Keys.{string_eq, nat_eq}
use aegis_stream.Prelude.OrdMap
use aegis_stream.Prelude.OrdMap.{OrdMap}
use aegis_stream.Prelude.{
  ℕ, ◌+◌, ◌-◌, ◌≤◌, ◌≡◌, ap, String, Bool, true, Option, none, some, List, [], ◌∷◌, ◌==◌, All,
  arith, Bool-cases, inl, inr,
}
use aegis_stream.Coalescer.{
  coalesce_ttl_ms, FactoryEnd, Wire, Flight, Wires, no_wires, purge_stale_coalesced_entries,
  get_coalesce_entry, attach_coalesce_consumer, release_coalesce_consumer,
}
use aegis_stream.Coalescer.Fetches.{
  note_first_url, begin_key, begin_coalesced_network_fetch, find_flight, finish_fetch, shared,
}
use aegis_stream.Coalescer.Flights.{begin-Tracked, finish-Tracked}
use aegis_stream.Coalescer.Tracks.{
  Aloft, Tracked, AllTracked, later, get-purge, attach-Tracked, release-Tracked, purge-Tracked,
}

-- `look` stands for each call that only looks an entry up: all of them purge first.
pub data Action : Type 0 where
  begin : Option String → Bool → Option String → Action
  ends : Bool → ℕ → FactoryEnd → Action
  attach : Option String → Action
  release : Option String → Action
  look : Option String → Action

abbrev pub act : ℕ → Action → Wires → Wires
act now (begin key has_factory url) w = (begin_coalesced_network_fetch now key has_factory url w).1
act now (ends serves fetch end) w = finish_fetch serves fetch end w
act now (attach key) w = (attach_coalesce_consumer key w).1
act now (release key) w = (release_coalesce_consumer key w).1
act now (look key) w = (get_coalesce_entry now key w).1

-- Each action comes some time after the one before.
abbrev pub clock : ℕ → List (ℕ × Action) → ℕ
clock now [] = now
clock now ((wait, action) ∷ rest) = clock (now + wait) rest

abbrev pub run : ℕ → List (ℕ × Action) → Wires → Wires
run now [] w = w
run now ((wait, action) ∷ rest) w = run (now + wait) rest (act (now + wait) action w)

look-Tracked :
    (now : ℕ) (key : Option String) (w : Wires)
    → AllTracked now w
    → AllTracked now (get_coalesce_entry now key w).1
unfolding get_coalesce_entry
look-Tracked now none w h = purge-Tracked now w h
look-Tracked now (some key) w h = purge-Tracked now w h

act-Tracked : (now : ℕ) (a : Action) (w : Wires) → AllTracked now w → AllTracked now (act now a w)
act-Tracked now (begin key has_factory url) w h = begin-Tracked now key has_factory url w h
act-Tracked now (ends serves fetch end) w h = finish-Tracked now serves fetch end w h
act-Tracked now (attach key) w h = attach-Tracked now key w h
act-Tracked now (release key) w h = release-Tracked now key w h
act-Tracked now (look key) w h = look-Tracked now key w h

later_all :
    (now wait : ℕ) (m : OrdMap String Wire) (fs : List Flight)
    → All (Tracked now m) fs
    → All (Tracked (now + wait) m) fs
later_all now wait m [] h = tt
later_all now wait m (f ∷ fs) h =
    (later now (now + wait) m f (omega arith) h.0, later_all now wait m fs h.1)

run-Tracked :
    (now : ℕ) (calls : List (ℕ × Action)) (w : Wires)
    → AllTracked now w
    → AllTracked (clock now calls) (run now calls w)
run-Tracked now [] w h = h
run-Tracked now ((wait, a) ∷ calls) w h =
    run-Tracked (now + wait) calls (act (now + wait) a w)
      (act-Tracked (now + wait) a w (later_all now wait w.inflight_by_key w.flights h))

find-All :
    (now fetch : ℕ) (m : OrdMap String Wire) (fs : List Flight) {f : Flight}
    → find_flight fetch fs ≡ some f
    → All (Tracked now m) fs
    → Tracked now m f
find-All now fetch m [] p h = cc
find-All now fetch m (g ∷ fs) {f = f} p h = elim (Bool-cases (g.fetch == fetch)) [
  | inl q ↦ let same : g ≡ f = ground (arith, p, q) in rw (← same) h.0
  | inr q ↦ find-All now fetch m fs {f = f} (ground (arith, p, q)) h.1
]

abbrev pub IsYoung : ℕ → Flight → Type 0
IsYoung now f = now - f.began_at ≤ coalesce_ttl_ms

-- Beginning a fetch for the key of a flight gives the promise of that flight and starts no other,
-- and another flight is the same fetch.
pub record Single (now : ℕ) (url : Option String) (f g : Flight) (w : Wires) : Type 0 where
  pub promise : (begin_coalesced_network_fetch now (some f.key) true url w).0 ≡ shared f.fetch
  pub none_started :
      (begin_coalesced_network_fetch now (some f.key) true url w).1.flights ≡ w.flights
  pub alone : g.fetch ≡ f.fetch

young_entry :
    (now : ℕ) (m : OrdMap String Wire) (f : Flight)
    → IsYoung now f
    → Tracked now m f
    → (wire : Wire) × (OrdMap.get f.key m ≡ some wire) × Aloft f wire
young_entry now m f young (inl found) = found
young_entry now m f young (inr old) = absurd (omega arith)

flights-note_first_url :
    (key : String) (url : Option String) (w : Wires)
    → (note_first_url key url w).flights ≡ w.flights
flights-note_first_url key none w = ground arith
flights-note_first_url key (some url) w = ground arith

joined :
    (now : ℕ) (url : Option String) (f : Flight) (w : Wires) (wire : Wire)
    → OrdMap.get f.key w.inflight_by_key ≡ some wire
    → Aloft f wire
    → IsYoung now f
    → ((begin_coalesced_network_fetch now (some f.key) true url w).0 ≡ shared f.fetch)
      × ((begin_coalesced_network_fetch now (some f.key) true url w).1.flights ≡ w.flights)
unfolding begin_coalesced_network_fetch
joined now url f w wire found aloft young =
    let fresh : OrdMap.get f.key (purge_stale_coalesced_entries now w).inflight_by_key ≡ some wire =
      get-purge now f.key w.inflight_by_key {wire = wire} found
        (ground (arith, aloft.dated, young)) in
    (
      rw (fresh, begin_key) (ap shared aloft.own),
      rw (fresh, begin_key)
          (flights-note_first_url f.key url (purge_stale_coalesced_entries now w)),
    )

same_fetch :
    (m : OrdMap String Wire) (f g : Flight) (wire wire' : Wire)
    → OrdMap.get f.key m ≡ some wire
    → OrdMap.get g.key m ≡ some wire'
    → Aloft f wire
    → Aloft g wire'
    → g.key ≡ f.key
    → g.fetch ≡ f.fetch
same_fetch m f g wire wire' held held' aloft aloft' same =
    let one : wire' ≡ wire = ground (arith, held, held', same) in
    ground (arith, one, aloft.own, aloft'.own)

none_aloft : (now : ℕ) → AllTracked now no_wires
unfolding no_wires
none_aloft now = tt

-- After any run from the empty table, with any times between the calls: while a fetch is in flight
-- and began no more than 12 seconds ago, beginning a fetch for its key gives its promise and starts
-- no other, and a flight that young with its key is that same fetch.
pub run-Single :
    (now fetch other : ℕ) (calls : List (ℕ × Action)) (url : Option String) (f g : Flight)
    → find_flight fetch (run now calls no_wires).flights ≡ some f
    → IsYoung (clock now calls) f
    → find_flight other (run now calls no_wires).flights ≡ some g
    → IsYoung (clock now calls) g
    → g.key ≡ f.key
    → Single (clock now calls) url f g (run now calls no_wires)
run-Single now fetch other calls url f g found young there young_too same =
    let t = clock now calls in
    let w = run now calls no_wires in
    let all = run-Tracked now calls no_wires (none_aloft now) in
    let (wire, held, aloft) =
      young_entry t w.inflight_by_key f young
        (find-All t fetch w.inflight_by_key w.flights {f = f} found all) in
    let (wire', held', aloft') =
      young_entry t w.inflight_by_key g young_too
        (find-All t other w.inflight_by_key w.flights {f = g} there all) in
    let (promise, none_started) = joined t url f w wire held aloft young in
    record {
      promise = promise;
      none_started = none_started;
      alone = same_fetch w.inflight_by_key f g wire wire' held held' aloft aloft' same;
    }
