-- ===== src/Coalescer/Endings.antt =====
-- What the end of a fetch leaves of it in src/page/network/network-fetch-coalescer.js.
use aegis_stream.Prelude.Keys.{string_eq, nat_eq}
use aegis_stream.Prelude.OrdMap
use aegis_stream.Prelude.{
  ℕ, ◌≡◌, refl, ap, ◌∙◌, String, Bool, true, false, none, some, List, [], ◌∷◌, ◌++◌, ltb, ◌==◌,
  Bool-cases, Option-cases, inl, inr,
}
use aegis_stream.Coalescer.{FactoryEnd, returned, threw, HotPut, FetchResult, Flight, Wires}
use aegis_stream.Coalescer.Fetches.{
  failed, hot_put, find_flight, drop_flight, retire, puts_of, end_flight, finish_fetch,
  resolved_with,
}
use aegis_stream.Coalescer.Settled.{retire-Idle}

-- A factory that failed: it threw, or gave nothing.
abbrev pub HasFailed : FactoryEnd → Type 0
HasFailed (returned (some result)) = ⊥
HasFailed (returned none) = Unit
HasFailed (threw message text) = Unit

-- The promise of a failed factory, and what becomes of the table.
pub record Cleaned (serves : Bool) (f : Flight) (end other : FactoryEnd) (w : Wires) : Type 0 where
  pub refused :
      (message : String) × ((finish_fetch serves f.fetch end w).settled
        ≡ (f.fetch, failed message) ∷ w.settled)
  pub nothing_put : (finish_fetch serves f.fetch end w).hot_puts ≡ w.hot_puts
  pub same_table :
      (finish_fetch serves f.fetch end w).inflight_by_key
      ≡ (finish_fetch serves f.fetch other w).inflight_by_key
  pub same_urls :
      (finish_fetch serves f.fetch end w).coalesce_key_to_url
      ≡ (finish_fetch serves f.fetch other w).coalesce_key_to_url

abbrev ended : Flight → Wires → List (ℕ × FetchResult) → List HotPut → Wires
ended f w settled puts = record w {
  flights = drop_flight f.fetch w.flights;
  settled = settled;
  hot_puts = puts;
}

module _ (f : Flight) (w : Wires) (s t : List (ℕ × FetchResult)) (p q : List HotPut) where
  retire_same :
      ((retire f (ended f w s p)).inflight_by_key ≡ (retire f (ended f w t q)).inflight_by_key)
      × ((retire f (ended f w s p)).coalesce_key_to_url
          ≡ (retire f (ended f w t q)).coalesce_key_to_url)
      × ((retire f (ended f w s p)).hot_puts ≡ p)
  unfolding retire
  retire_same = elim (Option-cases (OrdMap.get f.key w.inflight_by_key)) [
    | inl e ↦ rw (e, retire) (refl, refl, refl)
    | inr (wire, e) ↦ elim (Bool-cases (wire.fetch == f.fetch)) [
      | inr r ↦ rw (e, r, retire) (refl, refl, refl)
      | inl r ↦ elim (Bool-cases (ltb 0 wire.consumers)) [
        | inr u ↦ rw (e, r, u, retire) (refl, refl, refl)
        | inl u ↦ rw (e, r, u, retire) (refl, refl, refl)
      ]
    ]
  ]

failed_result :
    (end : FactoryEnd) → HasFailed end → (message : String) × (resolved_with end ≡ failed message)
unfolding resolved_with
failed_result (returned (some result)) h = absurd h
failed_result (returned none) h = ("empty-result", refl)
failed_result (threw (some message) text) h = (message, refl)
failed_result (threw none (some text)) h = (text, refl)
failed_result (threw none none) h = ("coalesced-fetch-failed", refl)

puts_of-failed :
    (serves : Bool) (f : Flight) (message : String) → puts_of serves f (failed message) ≡ []
unfolding puts_of hot_put
puts_of-failed true f message = refl
puts_of-failed false f message = refl

finish_fetch_lem :
    (serves : Bool) (f : Flight) (end : FactoryEnd) (w : Wires)
    → find_flight f.fetch w.flights ≡ some f
    → finish_fetch serves f.fetch end w ≡ end_flight serves f (resolved_with end) w
unfolding finish_fetch
finish_fetch_lem serves f end w found = rw (found, finish_fetch) refl

end_flight-table :
    (serves : Bool) (f : Flight) (r u : FetchResult) (w : Wires)
    → ((end_flight serves f r w).inflight_by_key ≡ (end_flight serves f u w).inflight_by_key)
      × ((end_flight serves f r w).coalesce_key_to_url
          ≡ (end_flight serves f u w).coalesce_key_to_url)
      × ((end_flight serves f r w).hot_puts ≡ puts_of serves f r ++ w.hot_puts)
      × ((end_flight serves f r w).settled ≡ (f.fetch, r) ∷ w.settled)
unfolding end_flight
end_flight-table serves f r u w =
    let s = (f.fetch, r) ∷ w.settled in
    let puts = puts_of serves f r ++ w.hot_puts in
    let same =
      retire_same f w s ((f.fetch, u) ∷ w.settled) puts (puts_of serves f u ++ w.hot_puts) in
    (same.0, same.1, same.2, (retire-Idle f (ended f w s puts)).same_settled)

-- When the factory of a flight throws or gives nothing, its promise is settled with a failed result
-- that carries a text, nothing goes to the hot cache, and the entries and URLs of the table become
-- what they would become whatever the factory had given.
pub finish_fetch-Cleaned :
    (serves : Bool) (f : Flight) (end other : FactoryEnd) (w : Wires)
    → find_flight f.fetch w.flights ≡ some f
    → HasFailed end
    → Cleaned serves f end other w
finish_fetch-Cleaned serves f end other w found h =
    let (message, p) = failed_result end h in
    let table = end_flight-table serves f (resolved_with end) (resolved_with other) w in
    let done = finish_fetch_lem serves f end w found in
    record {
      refused =
          (message, ap (λ v. v.settled) done ∙ table.3 ∙ ap (λ r. (f.fetch, r) ∷ w.settled) p);
      nothing_put =
          ap (λ v. v.hot_puts) done
          ∙ table.2
          ∙ ap (λ r. puts_of serves f r ++ w.hot_puts) p
          ∙ ap (λ l. l ++ w.hot_puts) (puts_of-failed serves f message);
      same_table = rw (done, finish_fetch_lem serves f other w found) table.0;
      same_urls = rw (done, finish_fetch_lem serves f other w found) table.1;
    }
