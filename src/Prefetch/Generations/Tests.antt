-- ===== src/Prefetch/Generations/Tests.antt =====
-- Runs of src/background/prefetch/state/network-generation.js on small inputs.
use aegis_stream.Prelude.Keys.{text_eq}
use aegis_stream.Prelude.OrdSet
use aegis_stream.Prelude.Texts.{codes}
use aegis_stream.Prelude.{◌≡◌, ◌≤◌, refl, true, false, none, some, List, [], ◌∷◌, arith}
use aegis_stream.Prefetch.Generations.{
  Tab, Env, or_zero, is_destructive_delegate_source, is_non_destructive_lifecycle_source,
  is_soft_scrub_delegate_source, is_seek_prediction_passenger_phase,
  is_churn_playback_bump_throttled,
}
use aegis_stream.Prefetch.Generations.Bumps.{
  evaluate_lifecycle_advancement, try_register_prefetch_download, release_prefetch_download,
  advance, after_bump, bump_playback_generation,
}
use aegis_stream.Prefetch.Generations.Growth.{current_of}
use aegis_stream.Prefetch.Generations.Events.{Verdict, evaluate_lifecycle_advancement_lem}
use aegis_stream.Prefetch.Generations.Calls.{Call, observes, releases, perform, perform_all}
use aegis_stream.Prefetch.Generations.Downloads.{perform_all-once, perform_all-grows}

abbrev env : Env
env = record {
  now = 50_000;
  scrub_delegate_min_interval_ms = none;
  scrubbing_train_idle_ms = none;
  churn_playback_bump_min_ms = none;
  is_variant_switch_grace_active = some false;
}

abbrev tab : Tab
tab = record {
  playback_generation = some 3;
  network_generation = some 3;
  playlist_generation = some 8;
  prefetch_download_registry = [];
  scrubbing_train_until = 0;
  last_scrub_velocity_schedule_at = 0;
  unified_seek_passenger_until = 0;
  seek_churn_aggressive_until = 0;
  teleport_mode_until = 0;
  last_scrub_seek_at = 0;
  last_playback_generation_bump_at = 0;
  last_observed_index = none;
  aborts = [];
  bump_notes = [];
}

-- A teleport moves the generation; a refresh of the playlist and a soft anchor do not.
teleport_moves :
    (evaluate_lifecycle_advancement env (some 4) (some (codes "Delegate-teleport")) none tab).0
    ≡ true
unfolding evaluate_lifecycle_advancement is_destructive_delegate_source
    is_non_destructive_lifecycle_source is_soft_scrub_delegate_source
    is_seek_prediction_passenger_phase is_churn_playback_bump_throttled advance after_bump
    bump_playback_generation
teleport_moves = refl

refresh_stays :
    (evaluate_lifecycle_advancement env
      (some 4)
      (some (codes "delegate-Playlist-Refresh "))
      none
      tab).0
    ≡ false
unfolding evaluate_lifecycle_advancement is_destructive_delegate_source
    is_non_destructive_lifecycle_source is_soft_scrub_delegate_source
    is_seek_prediction_passenger_phase is_churn_playback_bump_throttled advance after_bump
    bump_playback_generation
refresh_stays = refl

evaluate_lifecycle_advancement_lem_example :
    Verdict env
      (some 4)
      (some (codes "teleport"))
      (some 90)
      tab
      (evaluate_lifecycle_advancement env (some 4) (some (codes "teleport")) (some 90) tab)
evaluate_lifecycle_advancement_lem_example =
    evaluate_lifecycle_advancement_lem env (some 4) (some (codes "teleport")) (some 90) tab

-- A harmless event, and a release of another URL.
abbrev calls : List (Env × Call)
calls = (env, observes (some 4) (some (codes "schedule")) none) ∷ (env, releases (codes "b")) ∷ []

perform_all-once_example :
    (try_register_prefetch_download
      (codes "a")
      (perform_all calls (try_register_prefetch_download (codes "a") tab).1)).0
    ≡ false
unfolding evaluate_lifecycle_advancement is_destructive_delegate_source
    is_non_destructive_lifecycle_source is_soft_scrub_delegate_source
    is_seek_prediction_passenger_phase is_churn_playback_bump_throttled advance after_bump
    bump_playback_generation perform try_register_prefetch_download release_prefetch_download
    OrdSet.has
perform_all-once_example =
    perform_all-once (codes "a") calls tab refl (tt, (λ p. ground (arith, p), tt)) refl

perform_all-grows_example :
    (current_of tab ≤ current_of (perform_all calls tab))
    × (or_zero tab.playlist_generation ≤ or_zero (perform_all calls tab).playlist_generation)
perform_all-grows_example = perform_all-grows calls tab
