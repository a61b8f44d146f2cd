-- ===== src/Prefetch/Tests.antt =====
-- Runs of the prefetcher's parts on small inputs.
mod Decisions
use aegis_stream.Prelude.Keys.{string_eq, nat_eq}
use aegis_stream.Prelude.OrdMap
use aegis_stream.Prelude.{
  ℕ, ◌-◌, ◌*◌, ◌/◌, ◌≤◌, ◌<◌, ◌≡◌, refl, true, false, none, some, List, [], ◌∷◌, length, ltb, leb,
  arith, pos, tally,
}
use aegis_stream.Prefetch.Inflight.{
  Normalizers, Store, normalize_inflight_key, release_times, try_release_inflight_entry,
}
use aegis_stream.Prefetch.Inflight.Consumers.{happen_all-AllHeld}
use aegis_stream.Prefetch.Inflight.Holds.{Event, opens, attaches, releases, mutates, happen_all}
use aegis_stream.Prefetch.Inflight.Entries.{AllHeld}
use aegis_stream.Prefetch.Inflight.Deferred.{has-release_times-try_release}
use aegis_stream.Prefetch.Hysteresis.{TabState}
use aegis_stream.Prefetch.Hysteresis.Streaks.{follow, follow-Train, follow-Scattered}
use aegis_stream.Prefetch.Panic.{
  Constants, State, is_network_panic_active, get_network_p95_ms, should_activate,
  sync_network_panic_mode, resolve_panic_adjusted_prefetch_window,
  resolve_panic_adjusted_global_cap,
}
use aegis_stream.Prefetch.Panic.Band.{
  get_network_p95_ms-rank, Decided, sync-Decided, sync_all, sync_all-InBand, panic-widens,
}

abbrev plain_keys : Normalizers
plain_keys = record { resolve_prefetch_coalesce_key = none; strip_hash = none }

abbrev watching : List Event
watching =
    opens "seg1" 4
    ∷ attaches (some "seg1") none
    ∷ mutates (some "seg1") (some (pos 2)) none
    ∷ releases (some "seg1") none
    ∷ []

abbrev watched : Store
watched = happen_all plain_keys watching []

happen_all-AllHeld_example : AllHeld watched
happen_all-AllHeld_example = happen_all-AllHeld plain_keys watching [] tt

abbrev two_players : Store
two_players =
    (
      "seg1",
      record {
        tab_id = some 4;
        consumers = 2;
        attached_tabs = none;
        pending_release = false;
        abort_locked = true;
      },
    )
    ∷ []

has-release_times-try_release_example :
    OrdMap.has "seg1"
      (release_times plain_keys
        (some "seg1")
        none
        2
        (0, (try_release_inflight_entry plain_keys (some "seg1") true two_players).1)).1
    ≡ false
unfolding normalize_inflight_key OrdMap.get string_eq
has-release_times-try_release_example =
    has-release_times-try_release plain_keys (some "seg1") "seg1" 2 two_players
      (record {
        tab_id = some 4;
        consumers = 2;
        attached_tabs = none;
        pending_release = false;
        abort_locked = true;
      })
      refl refl (omega arith)

abbrev at_rest : TabState
at_rest = record {
  anchor_index = some 10;
  anchor_pending_count = 1;
  anchor_pending_index = some 40;
  anchor_lock_started_at = 5;
  mute_passive_hysteresis_until = 0;
}

follow-Train_example :
    ((follow 3 ((6, 41) ∷ []) (10, at_rest)).0 ≡ 10)
    × ((follow 3 ((6, 41) ∷ (7, 42) ∷ []) (10, at_rest)).0 ≡ 42)
    × ((follow 3 ((6, 41) ∷ (7, 42) ∷ []) (10, at_rest)).1.anchor_pending_count ≡ 0)
follow-Train_example =
    follow-Train 3 ((6, 41) ∷ []) 10 at_rest 7 42
      ((omega arith, omega arith), refl, ((omega arith, omega arith), refl, tt)) refl

abbrev defaults : Constants
defaults = record {
  ttfb_panic_min_network_samples = none;
  ttfb_panic_enter_p95_ms = none;
  ttfb_panic_exit_p95_ms = none;
  panic_prefetch_window = none;
  panic_target_runway_sec = none;
}

abbrev slow : List ℕ
slow =
    2_500 ∷ 2_600 ∷ 2_700 ∷ 2_500 ∷ 2_500 ∷ 2_500 ∷ 2_500 ∷ 2_500 ∷ 2_500 ∷ 2_500 ∷ 2_500 ∷ 2_500
    ∷ []

abbrev started : State
started = record {
  network_panic = none;
  first_byte_network = slow;
  stats = record { network_first_byte_p95_ms = 0; network_panic_active = 0 };
  broadcasts = 0;
}

get_network_p95_ms-rank_example :
    (tally (λ y. ltb y (get_network_p95_ms slow)) slow ≤ 95 * (length slow - 1) / 100)
    × (95 * (length slow - 1) / 100 < tally (λ y. leb y (get_network_p95_ms slow)) slow)
get_network_p95_ms-rank_example = get_network_p95_ms-rank slow (omega arith)

sync_all-InBand_example :
    (is_network_panic_active (sync_all defaults ((9, slow) ∷ (10, slow) ∷ []) started)
      ≡ is_network_panic_active started)
    × ((sync_all defaults ((9, slow) ∷ (10, slow) ∷ []) started).broadcasts ≡ started.broadcasts)
unfolding get_network_p95_ms
sync_all-InBand_example =
    sync_all-InBand defaults ((9, slow) ∷ (10, slow) ∷ []) started
      (λ h. (omega arith, omega arith), ((λ h. (omega arith, omega arith)), tt))
