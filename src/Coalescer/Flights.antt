-- ===== src/Coalescer/Flights.antt =====
-- One flight for each key of src/page/network/network-fetch-coalescer.js, over any run of its calls.
use aegis_stream.Prelude.Keys.{string_eq, nat_eq}
use aegis_stream.Prelude.OrdMap
use aegis_stream.Prelude.OrdMap.{OrdMap}
use aegis_stream.Prelude.{
  ℕ, ◌≡◌, refl, String, Bool, true, false, Option, none, some, List, [], ◌∷◌, ◌++◌, ltb, ◌==◌, All,
  arith, Bool-cases, Option-cases, inl, inr,
}
use aegis_stream.Coalescer.{
  FactoryEnd, Wire, Flight, Wires, purge_stale_coalesced_entries, FetchResult,
}
use aegis_stream.Coalescer.Fetches.{
  new_wire, start_fetch, begin_key, begin_coalesced_network_fetch, find_flight, drop_flight,
  puts_of, end_flight, retire, finish_fetch, resolved_with,
}
use aegis_stream.Coalescer.Tracks.{
  Aloft, Tracked, AllTracked, keep_all, set-Keeps, fresh-Keeps, delete-Keeps, purge-Tracked,
  note_first_url-Tracked,
}

started :
    (now : ℕ) (key : String) (url : Option String) (w : Wires)
    → OrdMap.get key w.inflight_by_key ≡ none
    → AllTracked now w
    → All (Tracked now (OrdMap.set key (new_wire now w.next_fetch) w.inflight_by_key)) (
        record { fetch = w.next_fetch; key = key; representative_url = url; began_at = now }
        ∷ w.flights)
started now key url w free h =
    let wire = new_wire now w.next_fetch in
    (
      inl (
        wire,
        OrdMap.get-set_self key wire w.inflight_by_key,
        record { own = refl; not_pending = refl; dated = refl },
      ),
      keep_all now w.inflight_by_key (OrdMap.set key wire w.inflight_by_key) w.flights
          (fresh-Keeps now key wire w.inflight_by_key free) h,
    )

start-Tracked :
    (now : ℕ) (key : String) (url : Option String) (w : Wires)
    → OrdMap.get key w.inflight_by_key ≡ none
    → AllTracked now w
    → AllTracked now (start_fetch now key url w)
start-Tracked now key none w free h = started now key none w free h
start-Tracked now key (some url) w free h = started now key (some url) w free h

pub begin-Tracked :
    (now : ℕ) (key : Option String) (has_factory : Bool) (url : Option String) (w : Wires)
    → AllTracked now w
    → AllTracked now (begin_coalesced_network_fetch now key has_factory url w).1
unfolding begin_coalesced_network_fetch
begin-Tracked now key false url w h = h
begin-Tracked now none true url w h = h
begin-Tracked now (some key) true url w h =
    let fresh = purge_stale_coalesced_entries now w in
    let k = purge-Tracked now w h in
    elim (Option-cases (OrdMap.get key fresh.inflight_by_key)) [
      | inl p ↦ rw (p, begin_key) (start-Tracked now key url fresh p k)
      | inr (wire, p) ↦ rw (p, begin_key) (note_first_url-Tracked now key url fresh k)
    ]

drop_flight-All :
    (now fetch : ℕ) (m n : OrdMap String Wire) (fs : List Flight)
    → ((f : Flight) → (f.fetch ≡ fetch → ⊥) → Tracked now m f → Tracked now n f)
    → All (Tracked now m) fs
    → All (Tracked now n) (drop_flight fetch fs)
drop_flight-All now fetch m n [] k h = tt
drop_flight-All now fetch m n (f ∷ fs) k h = elim (Bool-cases (f.fetch == fetch)) [
  | inl p ↦ rw p (drop_flight-All now fetch m n fs k h.1)
  | inr p ↦ rw p (k f (λ e. ground (arith, p, e)) h.0, drop_flight-All now fetch m n fs k h.1)
]

-- The `finally` block touches only the entry of the flight that ended.
retire-Keeps :
    (now : ℕ) (flight f : Flight) (w : Wires)
    → (f.fetch ≡ flight.fetch → ⊥)
    → Tracked now w.inflight_by_key f
    → Tracked now (retire flight w).inflight_by_key f
unfolding retire
retire-Keeps now flight f w other t =
    elim (Option-cases (OrdMap.get flight.key w.inflight_by_key)) [
      | inl p ↦ rw (p, retire) t
      | inr (wire, p) ↦ elim (Bool-cases (wire.fetch == flight.fetch)) [
        | inr q ↦ rw (p, q, retire) t
        | inl q ↦
            let free : Aloft f wire → ⊥ = λ a. other (ground (arith, a.own, q)) in
            elim (Bool-cases (ltb 0 wire.consumers)) [
              | inr r ↦
                  rw (p, q, r, retire)
                    (delete-Keeps now flight.key wire w.inflight_by_key f p free t)
              | inl r ↦
                  rw (p, q, r, retire)
                    (set-Keeps now flight.key wire (record wire { pending_release = true })
                      w.inflight_by_key f p (λ a. absurd (free a)) t)
            ]
      ]
    ]

pub flights-retire : (flight : Flight) (w : Wires) → (retire flight w).flights ≡ w.flights
unfolding retire
flights-retire flight w = elim (Option-cases (OrdMap.get flight.key w.inflight_by_key)) [
  | inl p ↦ rw (p, retire) refl
  | inr (wire, p) ↦ elim (Bool-cases (wire.fetch == flight.fetch)) [
    | inr q ↦ rw (p, q, retire) refl
    | inl q ↦ elim (Bool-cases (ltb 0 wire.consumers)) [
      | inr r ↦ rw (p, q, r, retire) refl
      | inl r ↦ rw (p, q, r, retire) refl
    ]
  ]
]

end_flight-Tracked :
    (now : ℕ) (serves : Bool) (flight : Flight) (result : FetchResult) (w : Wires)
    → AllTracked now w
    → AllTracked now (end_flight serves flight result w)
unfolding end_flight
end_flight-Tracked now serves flight result w h =
    let done = record w {
      flights = drop_flight flight.fetch w.flights;
      settled = (flight.fetch, result) ∷ w.settled;
      hot_puts = puts_of serves flight result ++ w.hot_puts;
    } in
    rw (flights-retire flight done) (
      drop_flight-All now flight.fetch w.inflight_by_key (retire flight done).inflight_by_key
        w.flights (λ f other. retire-Keeps now flight f done other) h)

pub finish-Tracked :
    (now : ℕ) (serves : Bool) (fetch : ℕ) (end : FactoryEnd) (w : Wires)
    → AllTracked now w
    → AllTracked now (finish_fetch serves fetch end w)
unfolding finish_fetch
finish-Tracked now serves fetch end w h = elim (Option-cases (find_flight fetch w.flights)) [
  | inl p ↦ rw (p, finish_fetch) h
  | inr (flight, p) ↦
      rw (p, finish_fetch) (end_flight-Tracked now serves flight (resolved_with end) w h)
]
