-- ===== src/Prefetch/Congestion.antt =====
-- src/background/prefetch/arbitration/congestion-controller.js: how far and how wide to prefetch,
-- by the time to the first byte.
--
-- Times are whole milliseconds, the runway whole seconds. A value that is no number is `none`. What
-- other scripts say of the tab (seek churn, scrubbing train, panic, the buffer's cap) is in `Env`.
pub mod Limits
use aegis_stream.Prelude.{
  ℕ, ◌+◌, ◌-◌, ◌*◌, ◌/◌, Bool, true, false, not, ◌&&◌, ◌||◌, Option, none, some, ltb, leb, ◌==◌,
  if◌then◌else◌, min, max, nonzero_or, positive_or,
}

pub data Tier : Type 0 where
  elite nominal congested panic : Tier

pub data BufferTier : Type 0 where
  emergency aggressive other : BufferTier

-- `Infinity` is `none`.
abbrev pub max_ttfb : Tier → Option ℕ
max_ttfb elite = some 50
max_ttfb nominal = some 200
max_ttfb congested = some 500
max_ttfb panic = none

abbrev pub max_inflight : Tier → ℕ
max_inflight elite = 12
max_inflight nominal = 8
max_inflight congested = 5
max_inflight panic = 3

abbrev pub runway_speculative_min : Tier → Option ℕ
runway_speculative_min elite = some 30
runway_speculative_min nominal = some 20
runway_speculative_min congested = none
runway_speculative_min panic = none

pub record Directives : Type 0 where
  pub prefetch_radius : ℕ
  pub max_inflight_prefetches : ℕ
  pub speculative_allowed : Bool
  pub speculative_segments_ahead : ℕ
  pub active_tier : Tier
  pub ttfb_p95_ms : ℕ
  pub scrub_guard_active : Bool

pub record TabState : Type 0 where
  pub scrub_snap_back_until : ℕ
  pub scrub_feed_surge_until : ℕ
  pub buffer_runway_sec : Option ℕ
  pub buffer_health_score : Option ℕ
  pub buffer_tier : BufferTier
  pub congestion_directives : Option Directives
  pub congestion_updated_at : ℕ
  pub current_dynamic_radius : ℕ
  pub speculative_allowed : Bool

pub record Env : Type 0 where
  pub now : ℕ
  pub seek_churn_aggressive : Bool
  pub scrubbing_train : Bool
  pub panic_active : Bool
  pub buffer_adjusted_global_cap : Option ℕ
  pub global_max_inflight_prefetches : Option ℕ
  pub prefetch_scrub_global_inflight_floor : Option ℕ
  pub prefetch_window : Option ℕ
  pub network_first_byte_p95_ms : ℕ
  pub request_first_byte_p95_ms : ℕ
  pub network_p95_ms : ℕ

abbrev pub scrub_guard_radius_floor : ℕ
scrub_guard_radius_floor = 15

abbrev pub scrub_guard_radius_ceiling : ℕ
scrub_guard_radius_ceiling = 20

unfoldable pub is_scrub_guard_active : Env → Option TabState → Bool
is_scrub_guard_active env none = false
is_scrub_guard_active env (some tab) =
    ltb env.now tab.scrub_snap_back_until || env.seek_churn_aggressive

abbrev within : ℕ → Tier → Bool
within ttfb tier = elim (max_ttfb tier) [ none ↦ true | some most ↦ leb ttfb most ]

unfoldable pub resolve_congestion_tier_key : ℕ → Bool → Tier
resolve_congestion_tier_key ttfb panic_active =
    if panic_active
    then panic
    else if within ttfb elite
    then elite
    else if within ttfb nominal
    then nominal
    else if within ttfb congested
    then congested
    else panic

abbrev pub tier_radius : Tier → ℕ → ℕ
tier_radius elite base = min 30 (base * 2)
tier_radius nominal base = base
tier_radius congested base = max 6 (3 * base / 4)
tier_radius panic base = 4

unfoldable pub compute_dynamic_radius : ℕ → Tier → Bool → ℕ
compute_dynamic_radius base_radius tier guard =
    let radius = tier_radius tier (max 1 base_radius) in
    max 1 (
      if guard
      then min (max radius scrub_guard_radius_floor) scrub_guard_radius_ceiling
      else radius)

-- `a || b || c || 100`
abbrev pub resolve_ttfb : Env → ℕ
resolve_ttfb env =
    if not (env.network_first_byte_p95_ms == 0)
    then env.network_first_byte_p95_ms
    else if not (env.request_first_byte_p95_ms == 0)
    then env.request_first_byte_p95_ms
    else if not (env.network_p95_ms == 0)
    then env.network_p95_ms
    else 100

abbrev or_zero : Option ℕ → ℕ
or_zero none = 0
or_zero (some n) = n

abbrev pub runway_of : Option TabState → ℕ
runway_of none = 0
runway_of (some tab) = or_zero tab.buffer_runway_sec

abbrev pub is_emergency : BufferTier → Bool
is_emergency emergency = true
is_emergency tier = false

abbrev pub tab_emergency : Option TabState → Bool
tab_emergency none = false
tab_emergency (some tab) = is_emergency tab.buffer_tier

abbrev reaches : Option ℕ → ℕ → Bool
reaches none runway = false
reaches (some least) runway = leb least runway

-- `tierKey !== TIER_CONGESTED && tierKey !== TIER_PANIC`
abbrev is_calm : Tier → Bool
is_calm elite = true
is_calm nominal = true
is_calm tier = false

unfoldable pub is_speculative_allowed : Env → Option TabState → Tier → Bool
is_speculative_allowed env tab tier =
    not (tab_emergency tab)
    && not env.panic_active
    && is_calm tier
    && reaches (runway_speculative_min tier) (runway_of tab)

unfoldable pub compute_congestion_directives : Env → Option TabState → ℕ → Directives
unfolding is_scrub_guard_active resolve_congestion_tier_key compute_dynamic_radius
    is_speculative_allowed
compute_congestion_directives env tab base_radius =
    let ttfb = resolve_ttfb env in
    let tier = resolve_congestion_tier_key ttfb env.panic_active in
    let allowed = is_speculative_allowed env tab tier in
    record {
      prefetch_radius = compute_dynamic_radius base_radius tier (is_scrub_guard_active env tab);
      max_inflight_prefetches = max_inflight tier;
      speculative_allowed = allowed;
      speculative_segments_ahead = if allowed then (if leb ttfb 50 then 2 else 1) else 0;
      active_tier = tier;
      ttfb_p95_ms = ttfb;
      scrub_guard_active = is_scrub_guard_active env tab;
    }

abbrev pub base_of : Env → Option ℕ → ℕ
base_of env base_radius = positive_or (max 1 (nonzero_or 8 env.prefetch_window)) base_radius

-- The directives, and the tab that keeps them.
unfoldable pub compute_congestion_directives_for_tab :
    Env → Option ℕ → Option TabState → Directives × Option TabState
unfolding compute_congestion_directives
compute_congestion_directives_for_tab env base_radius none =
    (compute_congestion_directives env none (base_of env base_radius), none)
compute_congestion_directives_for_tab env base_radius (some tab) =
    let directives = compute_congestion_directives env (some tab) (base_of env base_radius) in
    (
      directives,
      some
          (record tab { congestion_directives = some directives; congestion_updated_at = env.now }),
    )

abbrev pub note_radius : ℕ → Directives → Option TabState → Option TabState
note_radius adjusted directives none = none
note_radius adjusted directives (some tab) = some (record tab {
  current_dynamic_radius = adjusted;
  speculative_allowed = directives.speculative_allowed;
})

unfoldable pub apply_congestion_prefetch_radius :
    Env → Option ℕ → Option TabState → ℕ × Option TabState
unfolding compute_congestion_directives_for_tab
apply_congestion_prefetch_radius env buffer_adjusted_window tab =
    let (directives, kept) = compute_congestion_directives_for_tab env none tab in
    let adjusted = min (max 1 (nonzero_or 1 buffer_adjusted_window)) directives.prefetch_radius in
    (adjusted, note_radius adjusted directives kept)

abbrev pub kept_directives : Option TabState → Option Directives
kept_directives none = none
kept_directives (some tab) = tab.congestion_directives

-- The tab's own directives, or new ones.
unfoldable pub current_directives : Env → Option TabState → Directives × Option TabState
unfolding compute_congestion_directives_for_tab
current_directives env tab = elim (kept_directives tab) [
  | some directives ↦ (directives, tab)
  | none ↦ compute_congestion_directives_for_tab env none tab
]

abbrev below : Option ℕ → ℕ → Bool
below none limit = false
below (some n) limit = ltb n limit

abbrev is_pressing : BufferTier → Bool
is_pressing emergency = true
is_pressing aggressive = true
is_pressing other = false

abbrev pub is_low_buffer : Option TabState → Bool
is_low_buffer none = false
is_low_buffer (some tab) =
    is_pressing tab.buffer_tier
    || below tab.buffer_runway_sec 20
    || below tab.buffer_health_score 35

abbrev pub surge_until : Option TabState → ℕ
surge_until none = 0
surge_until (some tab) = tab.scrub_feed_surge_until

abbrev pub is_scrub_surge : Env → Option TabState → Bool
is_scrub_surge env tab =
    is_scrub_guard_active env tab || ltb env.now (surge_until tab) || env.scrubbing_train

abbrev pub raise : Bool → ℕ → ℕ → ℕ
raise test least cap = if test then max cap least else cap

-- The cap of the tier, raised by a scrub, a low buffer, an emergency and a scrub surge in turn.
unfoldable pub raise_tier_cap : Env → Option TabState → ℕ → ℕ
unfolding is_scrub_guard_active
raise_tier_cap env tab cap =
    let guard = is_scrub_guard_active env tab in
    let first = raise (guard || is_low_buffer tab) (if guard then 8 else 6) cap in
    raise (is_scrub_surge env tab) (max 1 (nonzero_or 16 env.prefetch_scrub_global_inflight_floor))
      (raise (tab_emergency tab) 10 first)

abbrev pub buffer_cap : Env → ℕ
buffer_cap env = elim env.buffer_adjusted_global_cap [
  | some cap ↦ cap
  | none ↦ max 1 (nonzero_or 12 env.global_max_inflight_prefetches)
]

unfoldable pub resolve_congestion_global_cap : Env → Option TabState → ℕ × Option TabState
unfolding current_directives raise_tier_cap
resolve_congestion_global_cap env tab =
    let (directives, kept) = current_directives env tab in
    (
      min (max 1 (buffer_cap env))
          (raise_tier_cap env tab (max 1 directives.max_inflight_prefetches)),
      kept,
    )
