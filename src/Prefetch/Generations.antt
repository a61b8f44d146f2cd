-- ===== src/Prefetch/Generations.antt =====
-- src/background/prefetch/state/network-generation.js: the generations of playback and of playlists,
-- and the downloads that are registered under the first.
--
-- A call takes a tab that has a state. A generation or time that is not set is `none` or 0. What is
-- sent to the tab, and what is noted of a bump, is kept in lists.
pub mod Bumps
pub mod Growth
pub mod Events
pub mod Calls
pub mod Downloads
mod Tests
use aegis_stream.Prelude.Keys.{text_eq}
use aegis_stream.Prelude.OrdSet
use aegis_stream.Prelude.Texts.{
  codes, to_lower, trim, strip_prefix, same_text, any_same, print_number,
}
use aegis_stream.Prelude.{
  ℕ, ◌+◌, ◌-◌, String, Bool, true, false, not, ◌&&◌, ◌||◌, Option, none, some, List, [], ◌∷◌, ◌++◌,
  ltb, ◌==◌, if◌then◌else◌, nonzero_or,
}

abbrev pub Text : Type 0
Text = List ℕ

-- A message to the tab that cancels the prefetches of other generations.
pub record Abort : Type 0 where
  pub generation : ℕ
  pub keep_urls : Option (List Text)

pub record Tab : Type 0 where
  pub playback_generation : Option ℕ
  pub network_generation : Option ℕ
  pub playlist_generation : Option ℕ
  pub prefetch_download_registry : List Text
  pub scrubbing_train_until : ℕ
  pub last_scrub_velocity_schedule_at : ℕ
  pub unified_seek_passenger_until : ℕ
  pub seek_churn_aggressive_until : ℕ
  pub teleport_mode_until : ℕ
  pub last_scrub_seek_at : ℕ
  pub last_playback_generation_bump_at : ℕ
  pub last_observed_index : Option ℕ
  pub aborts : List Abort
  pub bump_notes : List Bool

-- The clock, the constants, and the answer of `ns.isVariantSwitchGraceActive`.
pub record Env : Type 0 where
  pub now : ℕ
  pub scrub_delegate_min_interval_ms : Option ℕ
  pub scrubbing_train_idle_ms : Option ℕ
  pub churn_playback_bump_min_ms : Option ℕ
  pub is_variant_switch_grace_active : Option Bool

abbrev pub or_zero : Option ℕ → ℕ
or_zero none = 0
or_zero (some n) = n

-- The generation of playback, or the older one of the network.
abbrev pub generation_of : Option ℕ → Option ℕ → ℕ
generation_of none network = or_zero network
generation_of (some playback) network = playback

abbrev pub synced_network : Option ℕ → Option ℕ → Option ℕ
synced_network none network = network
synced_network (some playback) network = some playback

-- A generation of playback that is set stays as it is.
abbrev pub sync_legacy_network_generation : Tab → ℕ × Tab
sync_legacy_network_generation t =
    let current = generation_of t.playback_generation t.network_generation in
    (
      current,
      record t {
        playback_generation = some current;
        network_generation = synced_network t.playback_generation t.network_generation;
      },
    )

abbrev pub prefetch_registry_key : ℕ → Text → Text
prefetch_registry_key generation url = print_number (generation + 1) generation ++ (b'|' ∷ url)

abbrev pub non_destructive_lifecycle_sources : List String
non_destructive_lifecycle_sources =
    "chunk-observed" ∷ "playlist-refresh" ∷ "captured-playlist" ∷ "bridge-ready" ∷ "schedule"
    ∷ "anchor" ∷ "inflight-retry" ∷ "cap-retry" ∷ "speculative" ∷ "maintenance"
    ∷ "visibility-resume" ∷ "quality-switch-warm" ∷ "variant-switch-rescue" ∷ "buffer-load-push"
    ∷ []

abbrev pub soft_scrub_delegate_sources : List String
soft_scrub_delegate_sources =
    "scrub-velocity-prewarm" ∷ "scrub-snap-back" ∷ "dom-seeked" ∷ "teleport-mode-retained"
    ∷ "anchor-reconciliation" ∷ []

-- `String(eventSource || "")`
abbrev pub source_text : Option Text → Text
source_text none = []
source_text (some source) = source

abbrev pub normalize_lifecycle_event_source : Option Text → Text
normalize_lifecycle_event_source source =
    trim (to_lower (strip_prefix (source_text source) (codes "delegate-")))

pub is_non_destructive_lifecycle_source : Option Text → Bool
is_non_destructive_lifecycle_source source =
    any_same (normalize_lifecycle_event_source source) non_destructive_lifecycle_sources

abbrev pub is_scrubbing_train_active : Env → Tab → Bool
is_scrubbing_train_active env t = ltb env.now t.scrubbing_train_until

abbrev pub is_velocity_prefetch_lane_active : Env → Tab → Bool
is_velocity_prefetch_lane_active env t =
    ltb (env.now - t.last_scrub_velocity_schedule_at)
      (nonzero_or 280 env.scrub_delegate_min_interval_ms)

-- The last test of `isSeekPredictionPassengerPhase`.
abbrev pub is_idle_after_scrub : Env → Tab → Bool
is_idle_after_scrub env t =
    ltb env.now t.seek_churn_aggressive_until
    && (ltb 0 t.last_scrub_seek_at
        && ltb (env.now - t.last_scrub_seek_at)
            (nonzero_or 1_000 env.scrubbing_train_idle_ms + 400))

pub is_seek_prediction_passenger_phase : Env → Tab → Bool
is_seek_prediction_passenger_phase env t =
    ltb env.now t.unified_seek_passenger_until
    || (is_scrubbing_train_active env t
        || (is_velocity_prefetch_lane_active env t || is_idle_after_scrub env t))

abbrev pub is_grace : Option Bool → Bool
is_grace none = false
is_grace (some active) = active

pub is_soft_scrub_delegate_source : Env → Option Text → Tab → Bool
unfolding is_seek_prediction_passenger_phase
is_soft_scrub_delegate_source env source t =
    let clean_source = normalize_lifecycle_event_source source in
    any_same clean_source soft_scrub_delegate_sources
    || (same_text clean_source (codes "seek-prediction")
        && (is_seek_prediction_passenger_phase env t
            || is_grace env.is_variant_switch_grace_active))

pub is_destructive_delegate_source : Env → Option Text → Tab → Bool
unfolding is_non_destructive_lifecycle_source is_soft_scrub_delegate_source
is_destructive_delegate_source env source t =
    not (is_non_destructive_lifecycle_source source)
    && not (is_soft_scrub_delegate_source env source t)

pub is_churn_playback_bump_throttled : Env → Tab → Bool
is_churn_playback_bump_throttled env t =
    (ltb env.now t.seek_churn_aggressive_until
      || (ltb env.now t.scrubbing_train_until || ltb env.now t.teleport_mode_until))
    && ltb (env.now - t.last_playback_generation_bump_at)
        (nonzero_or 600 env.churn_playback_bump_min_ms)
