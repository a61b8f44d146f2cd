-- ===== src/Eviction/Tests.antt =====
-- Runs of a pass of eviction on small inputs.
use aegis_stream.Prelude.Keys.{string_eq, nat_eq}
use aegis_stream.Prelude.OrdSet
use aegis_stream.Prelude.OrdMap
use aegis_stream.Prelude.OrdMap.{OrdMap, IsMap}
use aegis_stream.Eviction.Pressure
use aegis_stream.Eviction.Pressure.Scheduling.{Triggered, trigger_lane2-Triggered}
use aegis_stream.Eviction.Pressure.{
  TabState, Manager, is_any_tab_eviction_suppressed, trigger_lane2_from_pressure,
}
use aegis_stream.Prelude.{
  ◌⊎◌, inr, ◌≤◌, ◌<◌, ◌+◌, ℕ, String, ◌≡◌, refl, true, false, inl, none, some, List, [], ◌∷◌, arith,
}
use aegis_stream.Eviction.Guards.{
  Keys, Env, Tab, past_of, future_of, anchors_of, window_of, add_urls, add_windows, add_tabs,
  collect_guard_ring_protected_urls, collect_consumer_protected_urls, collect_tier_a_protected_urls,
  is_url_guard_ring_protected,
}
use aegis_stream.Eviction.Plans.{
  reconcile, clear_passes, soft, hard, Item, Plan, Passes, first_plan, consider, plan_items,
  plan_pass, sets_of, begin_pass,
}
use aegis_stream.Eviction.Pressure.{Summary, Policy, Ratios, evaluate_pressure}
use aegis_stream.Eviction.Passes.{
  Event, calls, ends, clears, happen, happen_all, idle_world, clearings, Spaced,
  happen_all-idle_world,
}
use aegis_stream.Eviction.Safety.{pass_body-keeps_window}
use aegis_stream.Eviction.Outcomes.{Outcome, pass_body-Outcome}
use aegis_stream.Eviction.Aging.{In, IsOld}
use aegis_stream.Eviction.Sweeps.{
  Row, Limits, min_age_of, pass_body, sweep_in, age_sweep_cache_entries, sweep_rows, carry_out,
}

abbrev keys : Keys
keys = record { strip_hash = λ url. some url; build_cache_key_variants = λ url. [] }

abbrev env : Env
env = record {
  now = 9_000;
  past_segments = some 1;
  future_segments = some 1;
  seek_churn_past = none;
  seek_churn_future = none;
  anchor_signal_fresh_ms = none;
}

-- The playhead is at the third of five segments.
abbrev tab : Tab
tab = record {
  segments = "a" ∷ "b" ∷ "c" ∷ "d" ∷ "e" ∷ [];
  anchor_index = some 2;
  predicted_anchor_index = none;
  predicted_anchor_at = 0;
  teleport_mode_until = 0;
  teleport_target_index = none;
  seek_churn_aggressive_until = 0;
  is_in_variant_switch_grace = false;
  is_in_scrubbing_train = false;
  hit_rate_boost = 0;
}

abbrev item : String → Item
item url = record { url = url; byte_length = 10 }

abbrev order : List Item
order = item "d" ∷ item "a" ∷ item "c" ∷ item "e" ∷ []

abbrev ratios : Ratios
ratios = record {
  soft_bytes = none;
  soft_entries = none;
  hard_bytes = none;
  hard_entries = none;
  lane3_min = none;
}

abbrev summary : Summary
summary = record { total_bytes = 40; total_entries = 4 }

abbrev policy : Policy
policy = record { max_bytes = 20; max_entries = 40 }

-- The segments next to the playhead are left, and the others go, though there is still too much.
abbrev planned : Plan
planned = record {
  keys_to_delete = "a" ∷ "e" ∷ [];
  overflow_entries = 0;
  overflow_bytes = 5;
  reclaimed_bytes = 20;
  skipped_tier_a = 2;
  skipped_consumers = 0;
}

plan_pass_run :
    plan_pass keys (sets_of keys env (tab ∷ []) []) none ratios false soft summary policy order
    ≡ some planned
unfolding plan_pass sets_of string_eq OrdSet.has OrdSet.add OrdSet.add_all past_of future_of
    anchors_of window_of add_urls add_windows add_tabs collect_guard_ring_protected_urls
    collect_consumer_protected_urls collect_tier_a_protected_urls is_url_guard_ring_protected
    first_plan evaluate_pressure consider plan_items
plan_pass_run = refl

abbrev row : String → ℕ → Row
row url created_at = record { url = url; byte_length = 10; created_at = created_at }

-- One row is old, and another is too young.
abbrev rows : List Row
rows = row "a" 100 ∷ row "c" 5_000 ∷ row "d" 6_000 ∷ row "e" 7_000 ∷ []

abbrev limits : Limits
limits = record {
  now = 9_000;
  ttl_sweep_min_age_ms = some 8_500;
  ttl_sweep_max_delete = none;
  max_eviction_batch = none;
  ratios = ratios;
}

abbrev as_stored : List Item → List Item
as_stored items = items

-- The old row is swept, one more goes by the plan, and a forced pass is scheduled.
pass_body_run :
    (pass_body keys
      (sets_of keys env (tab ∷ []) [])
      limits
      true
      reconcile
      policy
      as_stored
      rows).rows
    ≡ row "c" 5_000 ∷ row "d" 6_000 ∷ []
unfolding pass_body sweep_in age_sweep_cache_entries sweep_rows carry_out plan_pass sets_of
    string_eq OrdSet.has OrdSet.add OrdSet.add_all past_of future_of anchors_of window_of add_urls
    add_windows add_tabs collect_guard_ring_protected_urls collect_consumer_protected_urls
    collect_tier_a_protected_urls is_url_guard_ring_protected first_plan evaluate_pressure consider
    plan_items
pass_body_run = refl

pass_body-keeps_window_example :
    In
      (row "d" 6_000)
      (pass_body keys
        (sets_of keys env (tab ∷ []) [])
        limits
        true
        reconcile
        policy
        as_stored
        rows).rows
    ⊎ ((reconcile ≡ reconcile) × (0 < min_age_of limits) × IsOld limits (row "d" 6_000))
unfolding OrdSet.has string_eq nat_eq past_of future_of anchors_of
pass_body-keeps_window_example =
    pass_body-keeps_window keys env (tab ∷ []) [] limits true reconcile policy as_stored rows
      (row "d" 6_000) tab "d" "d" "d" 2 3 (inr (inr (inl refl))) refl refl refl (inl refl) refl
      (omega arith) (omega arith) refl

pass_body-Outcome_example :
    Outcome keys
      (sets_of keys env (tab ∷ []) [])
      limits
      true
      reconcile
      policy
      as_stored
      rows
      (pass_body keys (sets_of keys env (tab ∷ []) []) limits true reconcile policy as_stored rows)
pass_body-Outcome_example =
    pass_body-Outcome keys (sets_of keys env (tab ∷ []) []) limits true reconcile policy as_stored
      rows

-- The second tab is in a train of scrubs.
abbrev tabs : OrdMap ℕ TabState
tabs =
    (
      1,
      record {
        is_scrubbing_train_active = false;
        is_in_seek_churn_aggressive = false;
        scrubbing_train_until = 0;
        seek_churn_aggressive_until = 0;
      },
    )
    ∷ (
      2,
      record {
        is_scrubbing_train_active = true;
        is_in_seek_churn_aggressive = false;
        scrubbing_train_until = 9_500;
        seek_churn_aggressive_until = 0;
      },
    )
    ∷ []

tabs-IsMap : IsMap tabs
unfolding OrdMap.get nat_eq
tabs-IsMap = (refl, (refl, tt))

abbrev scheduling : Pressure.Env
scheduling = record {
  now = 9_000;
  monotonic_now = 9_000;
  ratios = ratios;
  scrub_defer_ms = none;
  debounce_ms = none;
  lane3_interval_ms = none;
  active_tab = some 1;
  tabs = tabs;
}

abbrev quiet_manager : Manager
quiet_manager = record {
  lane2_timer = none;
  lane2_deferred_timer = none;
  lane3_interval = none;
  last_suppression_telemetry_at = 0;
  suppressed_by_scrub = 0;
}

trigger_lane2-Triggered_example :
    Triggered scheduling
      (evaluate_pressure ratios summary policy)
      quiet_manager
      (trigger_lane2_from_pressure scheduling (some (summary, policy)) quiet_manager)
trigger_lane2-Triggered_example =
    trigger_lane2-Triggered scheduling summary policy quiet_manager tabs-IsMap

abbrev idle : Passes
idle = record { last_soft_at = 5_000; last_reconcile_at = 0; last_hard_at = 0; in_progress = false }

-- A forced pass goes on where a soft one comes too soon, and the next one waits for its end.
forced_goes_on : (begin_pass 60_000 9_000 true true hard idle).0 ≡ true
unfolding begin_pass
forced_goes_on = refl

soft_too_soon : (begin_pass 60_000 9_000 false false soft idle).0 ≡ false
unfolding begin_pass
soft_too_soon = refl

one_at_a_time :
    (begin_pass 60_000 9_100 true true hard (begin_pass 60_000 9_000 true true hard idle).1).0
    ≡ false
unfolding begin_pass
one_at_a_time = refl

abbrev events : List Event
events = calls 70_000 false false soft ∷ clears ∷ calls 80_000 false false soft ∷ ends ∷ []

-- A clearing of the cache lets a second pass start beside the first, long before the interval is over.
two_at_once :
    (happen_all 60_000
      (calls 70_000 false false soft ∷ clears ∷ calls 80_000 false false soft ∷ [])
      idle_world).live
    ≡ 2
unfolding happen begin_pass clear_passes
two_at_once = refl

happen_all-idle_world_example :
    ((happen_all 60_000 events idle_world).live
      ≤ 1 + clearings (happen_all 60_000 events idle_world).log)
    × Spaced 60_000 (happen_all 60_000 events idle_world).log
happen_all-idle_world_example = happen_all-idle_world 60_000 events
