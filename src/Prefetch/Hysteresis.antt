-- ===== src/Prefetch/Hysteresis.antt =====
-- src/background/prefetch/anchor/anchor-hysteresis.js: how far jumps of the network's position are
-- held back until the player proves them.
--
-- A segment index is a native number, and `none` is a value that is no number. A time that is not
-- set is 0. The streak threshold, a constant of the worker, is an argument.
pub mod Streaks
use aegis_stream.Prelude.{
  ℕ, ◌+◌, ◌-◌, Bool, false, Option, none, some, ltb, leb, ◌==◌, if◌then◌else◌, nonzero_or, ◌||◌,
}

pub record TabState : Type 0 where
  pub anchor_index : Option ℕ
  pub anchor_pending_count : ℕ
  pub anchor_pending_index : Option ℕ
  pub anchor_lock_started_at : ℕ
  pub mute_passive_hysteresis_until : ℕ

abbrev pub nearby_delta : ℕ
nearby_delta = 2

-- `Number(constants.ANCHOR_MONOTONIC_STREAK_THRESHOLD) || 2`
unfoldable pub streak_threshold : Option ℕ → ℕ
streak_threshold configured = nonzero_or 2 configured

unfoldable pub is_passive_hysteresis_muted : ℕ → TabState → Bool
is_passive_hysteresis_muted now s = ltb now s.mute_passive_hysteresis_until

-- `Math.abs(a - b)`
abbrev pub distance : ℕ → ℕ → ℕ
distance a b = (a - b) + (b - a)

unfoldable pub reset_passive_anchor_deferral : TabState → TabState
reset_passive_anchor_deferral s = record s {
  anchor_pending_index = none;
  anchor_pending_count = 0;
  anchor_lock_started_at = 0;
}

-- Whether an observation goes on from the pending one: the same index, or the next.
abbrev pub continues : Option ℕ → ℕ → Bool
continues none observed = false
continues (some pending) observed = pending == observed || observed == pending + 1

abbrev pub is_pending : Option ℕ → ℕ → Bool
is_pending none observed = false
is_pending (some pending) observed = pending == observed

abbrev pub lock_time : ℕ → ℕ → ℕ
lock_time now started = if started == 0 then now else started

-- `pending !== observedIndex`, and its two branches.
unfoldable pub note_pending : ℕ → ℕ → TabState → TabState
note_pending now observed s =
    if is_pending s.anchor_pending_index observed
    then record s { anchor_pending_count = s.anchor_pending_count + 1 }
    else record s {
      anchor_pending_count =
          if continues s.anchor_pending_index observed then s.anchor_pending_count + 1 else 1;
      anchor_pending_index = some observed;
      anchor_lock_started_at = lock_time now s.anchor_lock_started_at;
    }

unfoldable pub commit_streak : ℕ → ℕ → ℕ → TabState → ℕ × TabState
unfolding reset_passive_anchor_deferral
commit_streak threshold observed current s =
    if leb threshold s.anchor_pending_count
    then (observed, reset_passive_anchor_deferral s)
    else (current, s)

unfoldable pub evaluate_numbers : ℕ → ℕ → ℕ → ℕ → TabState → ℕ × TabState
unfolding is_passive_hysteresis_muted reset_passive_anchor_deferral note_pending commit_streak
evaluate_numbers threshold now observed current s =
    if is_passive_hysteresis_muted now s
    then (current, s)
    else if leb (distance observed current) nearby_delta
    then (observed, reset_passive_anchor_deferral s)
    else commit_streak threshold observed current (note_pending now observed s)

abbrev pub or_anchor : Option ℕ → Option ℕ → Option ℕ
or_anchor none anchor = anchor
or_anchor (some current) anchor = some current

unfoldable pub evaluate_passive_anchor_signal :
    ℕ → ℕ → Option ℕ → Option ℕ → TabState → Option ℕ × TabState
unfolding evaluate_numbers
evaluate_passive_anchor_signal threshold now none current_anchor s = (none, s)
evaluate_passive_anchor_signal threshold now (some observed) current_anchor s =
    elim (or_anchor current_anchor s.anchor_index) [
      | none ↦ (some observed, s)
      | some current ↦ let r = evaluate_numbers threshold now observed current s in (some r.0, r.1)
    ]
