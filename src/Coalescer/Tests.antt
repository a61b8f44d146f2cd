-- ===== src/Coalescer/Tests.antt =====
-- Runs of src/page/network/network-fetch-coalescer.js on small inputs.
use aegis_stream.Prelude.Keys.{string_eq, nat_eq}
use aegis_stream.Prelude.OrdMap
use aegis_stream.Prelude.{
  ℕ, ◌≤◌, ◌≡◌, refl, true, false, Option, none, some, List, [], ◌∷◌, ltb, if◌then◌else◌, arith,
}
use aegis_stream.Coalescer.{
  FetchResult, returned, threw, Wire, Flight, Wires, no_wires, attach_coalesce_consumer,
  resolve_collapse_wait_timeout_ms, collapse_wait_min_ms, collapse_wait_max_ms,
}
use aegis_stream.Coalescer.Fetches.{begin_coalesced_network_fetch}
use aegis_stream.Coalescer.Runs.{Action, begin, attach, run, clock, Single, run-Single}
use aegis_stream.Coalescer.Settled.{promises, promises-run}
use aegis_stream.Coalescer.Endings.{Cleaned, finish_fetch-Cleaned}
use aegis_stream.Coalescer.Delivery.{Look, Round, await_collapsed_network_delivery}
use aegis_stream.Coalescer.Delivery.Waits.{Over, await-Over}

-- Two players ask for a segment, 40 ms apart, and a third one attaches.
abbrev calls : List (ℕ × Action)
calls =
    (0, begin (some "seg") true (some "https://cdn/seg.ts"))
    ∷ (40, begin (some "seg") true none)
    ∷ (5, attach (some "seg"))
    ∷ []

abbrev flight : Flight
flight = record {
  fetch = 0;
  key = "seg";
  representative_url = some "https://cdn/seg.ts";
  began_at = 1_000;
}

abbrev wire : Wire
wire = record { fetch = 0; started_at = 1_000; consumers = 1; pending_release = false }

abbrev wires : Wires
wires = run 1_000 calls no_wires

run-Single_example : Single (clock 1_000 calls) none flight flight wires
unfolding no_wires begin_coalesced_network_fetch attach_coalesce_consumer string_eq OrdMap.get
    OrdMap.set
run-Single_example =
    run-Single 1_000 0 0 calls none flight flight refl (omega arith) refl (omega arith) refl

promises-run_example :
    promises 0 (run 1_000 calls no_wires)
    ≡ (if ltb 0 (run 1_000 calls no_wires).next_fetch then 1 else 0)
promises-run_example = promises-run 1_000 0 calls

abbrev nothing : Option FetchResult
nothing = none

finish_fetch-Cleaned_example :
    Cleaned true flight (threw (some "reset") none) (returned nothing) wires
unfolding no_wires begin_coalesced_network_fetch attach_coalesce_consumer string_eq OrdMap.get
    OrdMap.set
finish_fetch-Cleaned_example =
    finish_fetch-Cleaned true flight (threw (some "reset") none) (returned nothing) wires refl tt

abbrev no_look : Look
no_look = record { hot = none; cached = none; from_cache = false }

abbrev slow_round : Round
slow_round = record { race_ms = 5_000; raced = none; look = no_look; look_ms = 10 }

await-Over_example :
    let timeout = resolve_collapse_wait_timeout_ms none none in
    Over timeout
      (await_collapsed_network_delivery true none none no_look 20 (slow_round ∷ slow_round ∷ []))
    × (collapse_wait_min_ms ≤ timeout)
    × (timeout ≤ collapse_wait_max_ms)
await-Over_example =
    await-Over true none none no_look 20 (slow_round ∷ slow_round ∷ []) (omega arith)
