-- ===== src/Coalescer/Delivery/Waits.antt =====
-- The wait of src/page/network/network-fetch-coalescer.js ends, and asks the worker at most twice.
use aegis_stream.Prelude.{
  is_some, ◌⊎◌, ℕ, ◌+◌, ◌≤◌, ◌≡◌, refl, Bool, true, false, Option, none, some, List, [], ◌∷◌, ltb,
  arith, Bool-cases, Option-cases, inl, inr,
}
use aegis_stream.Coalescer.{
  collapse_wait_min_ms, collapse_wait_max_ms, resolve_collapse_wait_timeout_ms,
}
use aegis_stream.Coalescer.Delivery.{
  Look, Round, Outcome, max_ipc_lookups, try_hot_or_cached_delivery, wait_rounds, count_lookup,
  next_allowance, await_collapsed_network_delivery,
}

abbrev pub duration : List Round → ℕ
duration [] = 0
duration (r ∷ rs) = r.race_ms + r.look_ms + duration rs

timeout_bounds :
    (p95 timeout_ms : Option ℕ)
    → (collapse_wait_min_ms ≤ resolve_collapse_wait_timeout_ms p95 timeout_ms)
      × (resolve_collapse_wait_timeout_ms p95 timeout_ms ≤ collapse_wait_max_ms)
unfolding resolve_collapse_wait_timeout_ms
timeout_bounds none none = omega arith
timeout_bounds (some p95) none = ground arith
timeout_bounds none (some ms) = ground arith
timeout_bounds (some p95) (some ms) = ground arith

-- The worker is asked only where that is allowed.
looks_if_allowed :
    (has_lookup allow : Bool) (look : Look)
    → (try_hot_or_cached_delivery has_lookup allow look).looked_up ≡ true
    → allow ≡ true
unfolding try_hot_or_cached_delivery
looks_if_allowed has_lookup true look h = refl
looks_if_allowed has_lookup false look h = absurd (ground (arith, h))

-- The wait is over, with at most two questions to the worker, and with nothing only at the timeout.
pub record Over (timeout_ms : ℕ) (result : Option Outcome) : Type 0 where
  pub outcome : Outcome
  pub returned : result ≡ some outcome
  pub few_lookups : outcome.lookups ≤ max_ipc_lookups
  pub gives_up_late : (is_some outcome.delivery ≡ true) ⊎ (timeout_ms ≤ outcome.waited_ms)

wait_rounds-Over :
    (has_lookup : Bool) (timeout_ms : ℕ) (rs : List Round) (waited ipc_lookups lookups : ℕ)
    → timeout_ms ≤ waited + duration rs
    → lookups ≤ ipc_lookups
    → ipc_lookups ≤ max_ipc_lookups
    → Over timeout_ms (wait_rounds has_lookup timeout_ms rs waited ipc_lookups lookups)
unfolding wait_rounds
wait_rounds-Over has_lookup timeout_ms [] waited ipc_lookups lookups long h k = record {
  outcome = record { delivery = none; waited_ms = waited; lookups = lookups };
  returned = ground arith;
  few_lookups = omega arith;
  gives_up_late = inr (omega arith);
}
wait_rounds-Over has_lookup timeout_ms (r ∷ rs) waited ipc_lookups lookups long h k =
    let allow = ltb ipc_lookups max_ipc_lookups in
    let attempt = try_hot_or_cached_delivery has_lookup allow r.look in
    let asked : count_lookup attempt lookups ≤ next_allowance ipc_lookups =
      ground (arith, looks_if_allowed has_lookup allow r.look) in
    elim (Bool-cases (ltb waited timeout_ms)) [
      | inr done ↦
          rw (done, wait_rounds)
            (record {
              outcome = record { delivery = none; waited_ms = waited; lookups = lookups };
              returned = refl;
              few_lookups = omega arith;
              gives_up_late = inr (ground (arith, done));
            })
      | inl more ↦ elim (Option-cases r.raced) [
        | inr (served, p) ↦
            rw (more, p, wait_rounds)
              (record {
                outcome = record {
                  delivery = some served;
                  waited_ms = waited + r.race_ms;
                  lookups = lookups;
                };
                returned = refl;
                few_lookups = omega arith;
                gives_up_late = inl refl;
              })
        | inl p ↦ elim (Option-cases attempt.delivery) [
          | inr (served, q) ↦
              rw (more, p, q, wait_rounds)
                (record {
                  outcome = record {
                    delivery = some served;
                    waited_ms = waited + r.race_ms + r.look_ms;
                    lookups = count_lookup attempt lookups;
                  };
                  returned = refl;
                  few_lookups = ground (arith, asked);
                  gives_up_late = inl refl;
                })
          | inl q ↦
              rw (more, p, q, wait_rounds)
                (wait_rounds-Over has_lookup timeout_ms rs (waited + r.race_ms + r.look_ms)
                  (next_allowance ipc_lookups) (count_lookup attempt lookups) (omega arith) asked
                  (ground arith))
        ]
      ]
    ]

-- The wait for a delivery ends once its passes have taken 8 seconds all told, whatever the race, the
-- hot cache and the worker answer in each of them: it has asked the worker at most twice, and it
-- ends with nothing only if the timeout, which is from 1.5 to 8 seconds, has passed.
pub await-Over :
    (has_lookup : Bool) (p95 timeout_ms : Option ℕ) (first : Look) (first_ms : ℕ)
    (rounds : List Round)
    → collapse_wait_max_ms ≤ first_ms + duration rounds
    → let timeout = resolve_collapse_wait_timeout_ms p95 timeout_ms in
      Over timeout
        (await_collapsed_network_delivery has_lookup p95 timeout_ms first first_ms rounds)
      × (collapse_wait_min_ms ≤ timeout)
      × (timeout ≤ collapse_wait_max_ms)
unfolding await_collapsed_network_delivery
await-Over has_lookup p95 timeout_ms first first_ms rounds long =
    let timeout = resolve_collapse_wait_timeout_ms p95 timeout_ms in
    let attempt = try_hot_or_cached_delivery has_lookup true first in
    let bounds = timeout_bounds p95 timeout_ms in
    let asked : count_lookup attempt 0 ≤ 1 = ground arith in
    elim (Option-cases attempt.delivery) [
      | inr (served, q) ↦ (
        rw (q, await_collapsed_network_delivery)
            (record {
              outcome = record {
                delivery = some served;
                waited_ms = first_ms;
                lookups = count_lookup attempt 0;
              };
              returned = refl;
              few_lookups = ground (arith, asked);
              gives_up_late = inl refl;
            }),
        bounds.0,
        bounds.1,
      )
      | inl q ↦ (
        rw (q, await_collapsed_network_delivery)
            (wait_rounds-Over has_lookup timeout rounds first_ms 1 (count_lookup attempt 0)
              (omega (arith, bounds.1, long)) asked (omega arith)),
        bounds.0,
        bounds.1,
      )
    ]
