-- ===== src/StoreQueue/Tests.antt =====
-- Runs of src/background/cache/store-queue.js on small inputs.
use aegis_stream.Prelude.{
  ℕ, ◌+◌, ◌-◌, ◌≡◌, refl, true, some, List, [], ◌∷◌, length, leb, ◌⊎◌, arith, ℕ_discrete,
}
use aegis_stream.StoreQueue.{
  Priority, high, low, Entry, Config, Event, submit, ends, microtask, empty, resolve_concurrency,
  resolve_max_queue_depth, enqueue_unbounded, completed, skipped, run, step, finish, count_finish,
  after_end, is_running, stop_running, accept, place, place_at, splice_in, splice_out, first_low,
  low_victim, drop_task, pump_wait_queue, start_waiting, run_microtask,
}
use aegis_stream.StoreQueue.Invariant.{Inv, run-Inv}
use aegis_stream.StoreQueue.Tickets.{tickets, submissions, tickets-run-empty}
use aegis_stream.StoreQueue.Lanes.{view-enqueue}
use aegis_stream.StoreQueue.LaneLists.{view, offer}
use aegis_stream.StoreQueue.Drain.{load, Enabled, run_drains}

-- One slot, and three tasks at most.
abbrev small : Config
small = record { store_write_concurrency = some 1; store_write_max_queue_depth = some 3 }

abbrev entry : ℕ → Priority → Entry
entry task priority = record { task = task; priority = priority }

-- The third high entry pushes the low one out, and the fourth finds no room.
abbrev burst : List Event
burst =
    submit (entry 1 low)
    ∷ submit (entry 2 low)
    ∷ submit (entry 3 high)
    ∷ submit (entry 4 high)
    ∷ submit (entry 5 high)
    ∷ ends 1 true
    ∷ []

burst_settles : (run small empty burst).settled ≡ (1, completed) ∷ (5, skipped) ∷ (2, skipped) ∷ []
unfolding run step enqueue_unbounded accept place place_at splice_in splice_out first_low low_victim
    drop_task pump_wait_queue start_waiting finish count_finish after_end is_running stop_running
    empty resolve_concurrency resolve_max_queue_depth ℕ_discrete
burst_settles = refl

run-Inv_example : Inv small (run small empty burst)
run-Inv_example = run-Inv small burst

tickets-run-empty_example : tickets 2 (run small empty burst) ≡ submissions 2 burst
tickets-run-empty_example = tickets-run-empty small 2 burst

view-enqueue_example :
    view (enqueue_unbounded small (entry 6 high) (run small empty burst))
    ≡ offer
        (leb
          (resolve_max_queue_depth small)
          (length (run small empty burst).wait_queue + (run small empty burst).active))
        (resolve_concurrency small - (run small empty burst).active)
        (entry 6 high)
        (view (run small empty burst))
view-enqueue_example =
    view-enqueue small (entry 6 high) (run small empty burst) (run-Inv small burst)

abbrev drained : List Event
drained = microtask ∷ ends 3 true ∷ []

run_drains_example :
    (length drained + load (run small (run small empty burst) drained)
      ≡ load (run small empty burst))
    × ((load (run small (run small empty burst) drained) ≡ 0)
        ⊎ ((e : Event) × Enabled (run small (run small empty burst) drained) e))
unfolding run step enqueue_unbounded accept place place_at splice_in splice_out first_low low_victim
    drop_task pump_wait_queue start_waiting finish count_finish after_end is_running stop_running
    empty resolve_concurrency resolve_max_queue_depth run_microtask ℕ_discrete
run_drains_example =
    run_drains small (run small empty burst) drained (run-Inv small burst) (omega arith, (refl, tt))
