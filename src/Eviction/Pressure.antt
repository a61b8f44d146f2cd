-- ===== src/Eviction/Pressure.antt =====
-- src/background/cache/eviction-manager.js: the measure of pressure, and when passes are scheduled.
--
-- A ratio is in hundredths: `a / b >= r / 100` is written `b * r <= a * 100`. A timer is the pass that
-- it starts, and its delay.
pub mod Scheduling
use aegis_stream.Prelude.Keys.{nat_eq}
use aegis_stream.Prelude.OrdMap
use aegis_stream.Prelude.OrdMap.{OrdMap}
use aegis_stream.Prelude.{
  ℕ, ◌+◌, ◌-◌, ◌*◌, Bool, true, false, not, ◌&&◌, ◌||◌, Option, none, some, List, [], ◌∷◌, ltb, leb,
  ◌==◌, if◌then◌else◌, max, nonzero_or,
}

pub record Summary : Type 0 where
  pub total_bytes : ℕ
  pub total_entries : ℕ

pub record Policy : Type 0 where
  pub max_bytes : ℕ
  pub max_entries : ℕ

-- The constants, in hundredths.
pub record Ratios : Type 0 where
  pub soft_bytes : Option ℕ
  pub soft_entries : Option ℕ
  pub hard_bytes : Option ℕ
  pub hard_entries : Option ℕ
  pub lane3_min : Option ℕ

pub record Pressure : Type 0 where
  pub over_budget : Bool
  pub over_soft_threshold : Bool
  pub over_hard_threshold : Bool
  pub lane3_eligible : Bool

abbrev pub reaches : ℕ → ℕ → ℕ → Bool
reaches total most ratio = leb (most * ratio) (total * 100)

unfoldable pub evaluate_pressure : Ratios → Summary → Policy → Pressure
evaluate_pressure r summary policy =
    let max_bytes = max 1 policy.max_bytes in
    let max_entries = max 1 policy.max_entries in
    let bytes_reach = reaches summary.total_bytes max_bytes in
    let entries_reach = reaches summary.total_entries max_entries in
    record {
      over_budget = ltb max_bytes summary.total_bytes || ltb max_entries summary.total_entries;
      over_soft_threshold =
          bytes_reach (nonzero_or 85 r.soft_bytes) || entries_reach (nonzero_or 90 r.soft_entries);
      over_hard_threshold =
          bytes_reach (nonzero_or 95 r.hard_bytes) || entries_reach (nonzero_or 95 r.hard_entries);
      lane3_eligible =
          bytes_reach (nonzero_or 70 r.lane3_min) || entries_reach (nonzero_or 70 r.lane3_min);
    }

-- What the code reads of a tab, and what other scripts say of it.
pub record TabState : Type 0 where
  pub is_scrubbing_train_active : Bool
  pub is_in_seek_churn_aggressive : Bool
  pub scrubbing_train_until : ℕ
  pub seek_churn_aggressive_until : ℕ

abbrev pub is_suppressed : ℕ → TabState → Bool
is_suppressed now t =
    t.is_scrubbing_train_active
    || (t.is_in_seek_churn_aggressive
        || (ltb now t.scrubbing_train_until || ltb now t.seek_churn_aggressive_until))

-- A tab that is no number is `none`.
unfoldable pub is_tab_eviction_suppressed : ℕ → Option ℕ → OrdMap ℕ TabState → Bool
is_tab_eviction_suppressed now none tabs = false
is_tab_eviction_suppressed now (some id) tabs = elim (OrdMap.get id tabs) [
  | none ↦ false
  | some t ↦ is_suppressed now t
]

abbrev pub is_active : Option ℕ → ℕ → Bool
is_active none id = false
is_active (some active) id = id == active

-- The loop over the other tabs.
unfoldable pub any_other_suppressed : ℕ → Option ℕ → List (ℕ × TabState) → Bool
any_other_suppressed now active [] = false
any_other_suppressed now active ((id, t) ∷ rest) =
    let more = any_other_suppressed now active rest in
    if is_active active id then more else is_suppressed now t || more

unfoldable pub is_any_tab_eviction_suppressed : ℕ → Option ℕ → OrdMap ℕ TabState → Bool
is_any_tab_eviction_suppressed now active tabs =
    is_tab_eviction_suppressed now active tabs || any_other_suppressed now active tabs

pub record Timer : Type 0 where
  pub delay_ms : ℕ
  pub force : Bool

pub record Manager : Type 0 where
  pub lane2_timer : Option Timer
  pub lane2_deferred_timer : Option ℕ
  pub lane3_interval : Option ℕ
  pub last_suppression_telemetry_at : ℕ
  pub suppressed_by_scrub : ℕ

-- The clocks, the constants and the tabs.
pub record Env : Type 0 where
  pub now : ℕ
  pub monotonic_now : ℕ
  pub ratios : Ratios
  pub scrub_defer_ms : Option ℕ
  pub debounce_ms : Option ℕ
  pub lane3_interval_ms : Option ℕ
  pub active_tab : Option ℕ
  pub tabs : OrdMap ℕ TabState

abbrev pub scrub_defer_of : Env → ℕ
scrub_defer_of env = nonzero_or 5_000 env.scrub_defer_ms

abbrev pub note_suppression : Env → Manager → Manager
note_suppression env m =
    if ltb (scrub_defer_of env) (env.monotonic_now - m.last_suppression_telemetry_at)
    then record m {
      last_suppression_telemetry_at = env.monotonic_now;
      suppressed_by_scrub = m.suppressed_by_scrub + 1;
    }
    else m

abbrev pub is_suppressed_now : Env → Bool
is_suppressed_now env = is_any_tab_eviction_suppressed env.now env.active_tab env.tabs

unfoldable pub should_schedule_soft_eviction : Env → Pressure → Manager → Bool × Manager
should_schedule_soft_eviction env p m =
    if p.over_hard_threshold || p.over_budget
    then (true, m)
    else if not p.over_soft_threshold
    then (false, m)
    else if is_suppressed_now env
    then (false, note_suppression env m)
    else (true, m)

unfoldable pub reset_suppression_telemetry_cooldown : Manager → Manager
reset_suppression_telemetry_cooldown m = record m { last_suppression_telemetry_at = 0 }

abbrev pub clear_lane2_timers : Manager → Manager
clear_lane2_timers m = record m { lane2_timer = none; lane2_deferred_timer = none }

abbrev pub arm_lane2_pass : ℕ → Bool → Manager → Manager
arm_lane2_pass delay_ms force m = record m {
  lane2_timer = some (record { delay_ms = delay_ms; force = force });
}

abbrev pub schedule_lane2_deferred_pass : Env → Manager → Manager
schedule_lane2_deferred_pass env m = record m { lane2_deferred_timer = some (scrub_defer_of env) }

abbrev pub schedule_soft : Env → Pressure → Bool × Manager → Manager
schedule_soft env p (schedules, m) =
    if schedules
    then arm_lane2_pass (nonzero_or 2_000 env.debounce_ms) false m
    else if p.over_soft_threshold
    then schedule_lane2_deferred_pass env m
    else m

abbrev pub trigger_with : Env → Pressure → Manager → Manager
trigger_with env p m =
    if not p.over_soft_threshold && (not p.over_budget && not p.over_hard_threshold)
    then m
    else if p.over_hard_threshold || p.over_budget
    then arm_lane2_pass 100 true m
    else schedule_soft env p (should_schedule_soft_eviction env p m)

-- The snapshot is what `ns.evaluateCachePressure` gives, where it has both parts.
unfoldable pub trigger_lane2_from_pressure : Env → Option (Summary × Policy) → Manager → Manager
trigger_lane2_from_pressure env none m = m
trigger_lane2_from_pressure env (some (summary, policy)) m =
    trigger_with env (evaluate_pressure env.ratios summary policy) m

unfoldable pub schedule_eviction : Env → Bool → Option (Summary × Policy) → Manager → Manager
schedule_eviction env true snapshot m = arm_lane2_pass 100 true (clear_lane2_timers m)
schedule_eviction env false snapshot m = trigger_lane2_from_pressure env snapshot m

-- A timer that fires: whether a pass starts, and whether it is forced.
unfoldable pub fire_lane2_timer : Manager → Option Bool × Manager
fire_lane2_timer m = elim m.lane2_timer [
  | none ↦ (none, m)
  | some timer ↦ (some timer.force, record m { lane2_timer = none })
]

unfoldable pub fire_lane2_deferred_timer : Env → Option (Summary × Policy) → Manager → Manager
fire_lane2_deferred_timer env snapshot m = elim m.lane2_deferred_timer [
  | none ↦ m
  | some delay_ms ↦
      trigger_lane2_from_pressure env snapshot (record m { lane2_deferred_timer = none })
]

-- Whether the tick of the third lane starts a pass.
unfoldable pub run_lane3_reconcile_tick : Env → Option (Summary × Policy) → Bool
run_lane3_reconcile_tick env none = false
run_lane3_reconcile_tick env (some (summary, policy)) =
    (evaluate_pressure env.ratios summary policy).lane3_eligible

unfoldable pub start_lane3_reconcile_loop : Env → Manager → Manager
start_lane3_reconcile_loop env m = elim m.lane3_interval [
  | some interval_ms ↦ m
  | none ↦ record m { lane3_interval = some (nonzero_or 45_000 env.lane3_interval_ms) }
]
