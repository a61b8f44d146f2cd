-- ===== src/Prefetch/Tests/Decisions.antt =====
-- The pure decisions of the prefetcher on small inputs.
use aegis_stream.Prelude.{◌≤◌, ◌≡◌, true, false, Option, none, some, min, max}
use aegis_stream.Prefetch.Playback.{
  Snapshot, Next, determine_playback_transition, compare_snapshots, session_key_of,
}
use aegis_stream.Prefetch.Playback.Meaning.{described, state_of, determine_playback_transition_lem}
use aegis_stream.Prefetch.Congestion.{
  Env, TabState, other, resolve_congestion_global_cap, buffer_cap, is_low_buffer, tab_emergency,
}
use aegis_stream.Prefetch.Congestion.Limits.{resolve_congestion_global_cap-bounds}

abbrev before : Snapshot
before = record {
  session_key = some "ep1";
  structural_hash = some "a";
  active_rung_label = some "720p";
  media_playlist_path = none;
  segment_count = 100;
}

abbrev after : Next
after = record {
  snapshot = record {
    session_key = some "ep1";
    structural_hash = some "b";
    active_rung_label = some "1080p";
    media_playlist_path = none;
    segment_count = 100;
  };
  composite_key = "page|";
  episode_changed = false;
  timeline_geometry_unchanged = false;
  urls_changed = true;
}

abbrev partial : Next
partial = record {
  snapshot = record {
    session_key = none;
    structural_hash = none;
    active_rung_label = some "1080p";
    media_playlist_path = none;
    segment_count = 0;
  };
  composite_key = "page|";
  episode_changed = false;
  timeline_geometry_unchanged = false;
  urls_changed = true;
}

determine_playback_transition_lem_example :
    determine_playback_transition (some before) after
    ≡ described (state_of (compare_snapshots (some before) after) after) (session_key_of after)
determine_playback_transition_lem_example = determine_playback_transition_lem (some before) after

abbrev env : Env
env = record {
  now = 1_000;
  seek_churn_aggressive = false;
  scrubbing_train = false;
  panic_active = false;
  buffer_adjusted_global_cap = some 9;
  global_max_inflight_prefetches = none;
  prefetch_scrub_global_inflight_floor = none;
  prefetch_window = none;
  network_first_byte_p95_ms = 120;
  request_first_byte_p95_ms = 0;
  network_p95_ms = 0;
}

abbrev tab : Option TabState
tab = some (record {
  scrub_snap_back_until = 0;
  scrub_feed_surge_until = 0;
  buffer_runway_sec = some 40;
  buffer_health_score = none;
  buffer_tier = other;
  congestion_directives = none;
  congestion_updated_at = 0;
  current_dynamic_radius = 0;
  speculative_allowed = false;
})

resolve_congestion_global_cap-bounds_example :
    let cap = (resolve_congestion_global_cap env tab).0 in
    (1 ≤ cap)
    × (cap ≤ max 1 (buffer_cap env))
    × (is_low_buffer tab ≡ true → min (buffer_cap env) 6 ≤ cap)
    × (tab_emergency tab ≡ true → min (buffer_cap env) 10 ≤ cap)
resolve_congestion_global_cap-bounds_example = resolve_congestion_global_cap-bounds env tab
