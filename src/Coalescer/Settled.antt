-- ===== src/Coalescer/Settled.antt =====
-- The promises of src/page/network/network-fetch-coalescer.js: each is settled once, and never lost.
use aegis_stream.Prelude.Keys.{string_eq, nat_eq}
use aegis_stream.Prelude.OrdMap
use aegis_stream.Prelude.{
  ℕ, ◌+◌, ◌-◌, ◌≤◌, ◌<◌, ◌≡◌, refl, ◌∙◌, String, Bool, true, false, ◌&&◌, Option, none, some, List,
  [], ◌∷◌, ◌++◌, ltb, dec_lt, subst, sym, ◌==◌, if◌then◌else◌, ite, arith, count, ℕ_discrete,
  Bool-cases, Option-cases, inl, inr,
}
use aegis_stream.Coalescer.{
  FactoryEnd, FetchResult, Flight, Wires, no_wires, purge_stale_coalesced_entries,
  get_coalesce_entry, attach_coalesce_consumer, release_coalesce_consumer,
}
use aegis_stream.Coalescer.Fetches.{
  note_url, note_first_url, start_fetch, begin_key, begin_coalesced_network_fetch, find_flight,
  drop_flight, retire, puts_of, end_flight, finish_fetch, resolved_with,
}
use aegis_stream.Coalescer.Runs.{Action, begin, ends, attach, release, look, act, run}

abbrev pub flying : List Flight → List ℕ
flying [] = []
flying (f ∷ fs) = f.fetch ∷ flying fs

abbrev pub settled_fetches : List (ℕ × FetchResult) → List ℕ
settled_fetches [] = []
settled_fetches ((fetch, result) ∷ rest) = fetch ∷ settled_fetches rest

-- How often a promise is awaited by a flight, and how often it has been settled.
abbrev pub promises : ℕ → Wires → ℕ
promises n w =
    count ℕ_discrete n (flying w.flights) + count ℕ_discrete n (settled_fetches w.settled)

-- Each promise that was made is in flight or settled, once; the others are neither.
pub record Ledger (w : Wires) : Type 0 where
  pub made : (n : ℕ) → n < w.next_fetch → promises n w ≡ 1
  pub unmade : (n : ℕ) → w.next_fetch ≤ n → promises n w ≡ 0

-- A step that leaves the promises alone.
pub record Idle (v w : Wires) : Type 0 where
  pub same_flights : w.flights ≡ v.flights
  pub same_settled : w.settled ≡ v.settled
  pub same_next : w.next_fetch ≡ v.next_fetch

pub idle : (w : Wires) → Idle w w
idle w = record { same_flights = refl; same_settled = refl; same_next = refl }

pub Idle-Ledger : {v w : Wires} → Idle v w → Ledger v → Ledger w
Idle-Ledger {v} {w} s h = record {
  made = λ n p. rw (s.same_flights, s.same_settled) (h.made n (omega (arith, p, s.same_next)));
  unmade = λ n p. rw (s.same_flights, s.same_settled) (h.unmade n (omega (arith, p, s.same_next)));
}

pub attach-Idle : (key : Option String) (w : Wires) → Idle w (attach_coalesce_consumer key w).1
unfolding attach_coalesce_consumer
attach-Idle none w = idle w
attach-Idle (some key) w = elim (Option-cases (OrdMap.get key w.inflight_by_key)) [
  | inl p ↦ rw (p, attach_coalesce_consumer) (idle w)
  | inr (old, p) ↦
      rw (p, attach_coalesce_consumer)
        (record { same_flights = refl; same_settled = refl; same_next = refl })
]

pub release-Idle : (key : Option String) (w : Wires) → Idle w (release_coalesce_consumer key w).1
unfolding release_coalesce_consumer
release-Idle none w = idle w
release-Idle (some key) w = elim (Option-cases (OrdMap.get key w.inflight_by_key)) [
  | inl p ↦ rw (p, release_coalesce_consumer) (idle w)
  | inr (old, p) ↦ elim (Bool-cases ((old.consumers - 1) == 0 && old.pending_release)) [
    | inl last ↦
        rw (p, last, release_coalesce_consumer)
          (record { same_flights = refl; same_settled = refl; same_next = refl })
    | inr more ↦
        rw (p, more, release_coalesce_consumer)
          (record { same_flights = refl; same_settled = refl; same_next = refl })
  ]
]

pub purge-Idle : (now : ℕ) (w : Wires) → Idle w (purge_stale_coalesced_entries now w)
unfolding purge_stale_coalesced_entries
purge-Idle now w = record { same_flights = refl; same_settled = refl; same_next = refl }

pub look-Idle :
    (now : ℕ) (key : Option String) (w : Wires) → Idle w (get_coalesce_entry now key w).1
unfolding get_coalesce_entry
look-Idle now none w = purge-Idle now w
look-Idle now (some key) w = purge-Idle now w

pub note_url-Idle : (key : String) (url : Option String) (w : Wires) → Idle w (note_url key url w)
note_url-Idle key none w = idle w
note_url-Idle key (some url) w = record {
  same_flights = refl;
  same_settled = refl;
  same_next = refl;
}

pub note_first_url-Idle :
    (key : String) (url : Option String) (w : Wires) → Idle w (note_first_url key url w)
note_first_url-Idle key url w = elim (Bool-cases (OrdMap.has key w.coalesce_key_to_url)) [
  | inl p ↦ rw p (idle w)
  | inr p ↦ rw p (note_url-Idle key url w)
]

pub retire-Idle : (flight : Flight) (w : Wires) → Idle w (retire flight w)
unfolding retire
retire-Idle flight w = elim (Option-cases (OrdMap.get flight.key w.inflight_by_key)) [
  | inl p ↦ rw (p, retire) (idle w)
  | inr (wire, p) ↦ elim (Bool-cases (wire.fetch == flight.fetch)) [
    | inr q ↦ rw (p, q, retire) (idle w)
    | inl q ↦ elim (Bool-cases (ltb 0 wire.consumers)) [
      | inr r ↦
          rw (p, q, r, retire)
            (record { same_flights = refl; same_settled = refl; same_next = refl })
      | inl r ↦
          rw (p, q, r, retire)
            (record { same_flights = refl; same_settled = refl; same_next = refl })
    ]
  ]
]

pub start-Ledger :
    (now : ℕ) (key : String) (url : Option String) (w : Wires)
    → Ledger w
    → Ledger (start_fetch now key url w)
start-Ledger now key none w h = record {
  made = λ n p. ground (arith, h.made n, h.unmade n, p);
  unmade = λ n p. ground (arith, h.unmade n, p);
}
start-Ledger now key (some url) w h = record {
  made = λ n p. ground (arith, h.made n, h.unmade n, p);
  unmade = λ n p. ground (arith, h.unmade n, p);
}

pub begin-Ledger :
    (now : ℕ) (key : Option String) (has_factory : Bool) (url : Option String) (w : Wires)
    → Ledger w
    → Ledger (begin_coalesced_network_fetch now key has_factory url w).1
unfolding begin_coalesced_network_fetch
begin-Ledger now key false url w h = h
begin-Ledger now none true url w h = h
begin-Ledger now (some key) true url w h =
    let fresh = purge_stale_coalesced_entries now w in
    let k = Idle-Ledger (purge-Idle now w) h in
    elim (Option-cases (OrdMap.get key fresh.inflight_by_key)) [
      | inl p ↦ rw (p, begin_key) (start-Ledger now key url fresh k)
      | inr (wire, p) ↦ rw (p, begin_key) (Idle-Ledger (note_first_url-Idle key url fresh) k)
    ]

pub count-drop_flight :
    (n fetch : ℕ) (fs : List Flight)
    → count ℕ_discrete n (flying (drop_flight fetch fs))
      ≡ ite (ℕ_discrete fetch n) 0 (count ℕ_discrete n (flying fs))
count-drop_flight n fetch [] = ground arith
count-drop_flight n fetch (f ∷ fs) = ground (arith, count-drop_flight n fetch fs)

pub find-count :
    (fetch : ℕ) (fs : List Flight) {f : Flight}
    → find_flight fetch fs ≡ some f
    → (f.fetch ≡ fetch) × (0 < count ℕ_discrete fetch (flying fs))
find-count fetch [] p = cc
find-count fetch (g ∷ fs) {f = f} p = ground (arith, find-count fetch fs {f = f}, p)

-- The promise of the flight goes from the flying to the settled.
pub moved :
    (n : ℕ) (w : Wires) (f : Flight) (result : FetchResult)
    → (promises f.fetch w ≡ 1)
    → 0 < count ℕ_discrete f.fetch (flying w.flights)
    → count ℕ_discrete n (flying (drop_flight f.fetch w.flights))
        + count ℕ_discrete n (f.fetch ∷ settled_fetches w.settled)
      ≡ promises n w
moved n w f result once up = ground (arith, count-drop_flight n f.fetch w.flights, once, up)

pub up_once :
    (n : ℕ) (w : Wires) → Ledger w → 0 < count ℕ_discrete n (flying w.flights) → promises n w ≡ 1
up_once n w h up = elim (dec_lt n w.next_fetch) [
  | yes p ↦ h.made n p
  | no p ↦ absurd (omega (arith, h.unmade n (omega arith), up))
]

pub end_flight-Ledger :
    (serves : Bool) (f : Flight) (result : FetchResult) (w : Wires)
    → 0 < count ℕ_discrete f.fetch (flying w.flights)
    → Ledger w
    → Ledger (end_flight serves f result w)
unfolding end_flight
end_flight-Ledger serves f result w up h =
    let done = record w {
      flights = drop_flight f.fetch w.flights;
      settled = (f.fetch, result) ∷ w.settled;
      hot_puts = puts_of serves f result ++ w.hot_puts;
    } in
    let once = up_once f.fetch w h up in
    Idle-Ledger (retire-Idle f done) (record {
      made = λ n p. moved n w f result once up ∙ h.made n p;
      unmade = λ n p. moved n w f result once up ∙ h.unmade n p;
    })

pub finish-Ledger :
    (serves : Bool) (fetch : ℕ) (end : FactoryEnd) (w : Wires)
    → Ledger w
    → Ledger (finish_fetch serves fetch end w)
unfolding finish_fetch
finish-Ledger serves fetch end w h = elim (Option-cases (find_flight fetch w.flights)) [
  | inl p ↦ rw (p, finish_fetch) h
  | inr (f, p) ↦
      let (same, up) = find-count fetch w.flights {f = f} p in
      rw (p, finish_fetch)
        (end_flight-Ledger serves f (resolved_with end) w
          (subst (λ n. 0 < count ℕ_discrete n (flying w.flights)) (sym same) up) h)
]

pub act-Ledger : (now : ℕ) (a : Action) (w : Wires) → Ledger w → Ledger (act now a w)
act-Ledger now (begin key has_factory url) w h = begin-Ledger now key has_factory url w h
act-Ledger now (ends serves fetch end) w h = finish-Ledger serves fetch end w h
act-Ledger now (attach key) w h = Idle-Ledger (attach-Idle key w) h
act-Ledger now (release key) w h = Idle-Ledger (release-Idle key w) h
act-Ledger now (look key) w h = Idle-Ledger (look-Idle now key w) h

pub run-Ledger :
    (now : ℕ) (calls : List (ℕ × Action)) (w : Wires) → Ledger w → Ledger (run now calls w)
run-Ledger now [] w h = h
run-Ledger now ((wait, a) ∷ calls) w h =
    run-Ledger (now + wait) calls (act (now + wait) a w) (act-Ledger (now + wait) a w h)

pub none_made : Ledger no_wires
unfolding no_wires
none_made = record { made = λ n p. absurd (omega arith); unmade = λ n p. omega arith }

-- After any run from the empty table, each of the promises that were made (those below the next
-- number) stands exactly once among the flights and the settled promises together, and no other
-- number does: no promise is lost, and none is settled twice.
pub promises-run :
    (now n : ℕ) (calls : List (ℕ × Action))
    → let w = run now calls no_wires in promises n w ≡ (if ltb n w.next_fetch then 1 else 0)
promises-run now n calls =
    let h = run-Ledger now calls no_wires none_made in ground (arith, h.made n, h.unmade n)
