-- ===== src/Prefetch/Generations/Events.antt =====
-- When an event of the lifecycle moves the generation of playback in
-- src/background/prefetch/state/network-generation.js.
use aegis_stream.Prelude.{
  sym, ◌∙◌, ℕ, ◌+◌, ◌<◌, ◌≡◌, refl, Bool, true, false, inl, inr, Option, none, some, arith,
  Bool-cases,
}
use aegis_stream.Prefetch.Generations.{
  Text, Tab, Env, or_zero, sync_legacy_network_generation, is_destructive_delegate_source,
  is_churn_playback_bump_throttled, is_soft_scrub_delegate_source,
  is_seek_prediction_passenger_phase,
}
use aegis_stream.Prefetch.Generations.Bumps.{
  bump_playlist_generation, bump_playback_generation, note_target, after_bump,
  evaluate_lifecycle_advancement, is_current_playback_generation,
}
use aegis_stream.Prefetch.Generations.Growth.{
  current_of, Stays, Moves, Bumped, harmless, throttled, moved, sync-Stays, Stays-trans,
  playlist-Stays, bump-Bumped,
}

abbrev pub noted : Option ℕ → Option ℕ → Option ℕ
noted none before = before
noted (some index) before = some index

-- What an event of the lifecycle does, and which of three it is.
pub data Verdict (env : Env) (tab_id : Option ℕ) (source : Option Text) (target_index : Option ℕ)
    (t : Tab) (r : Bool × Tab) : Type 0 where
  -- A harmless source counts a playlist generation and notes the index.
  quiet :
      is_destructive_delegate_source env source t ≡ false
      → r.0 ≡ false
      → Stays t r.1
      → r.1.playlist_generation ≡ some (or_zero t.playlist_generation + 1)
      → r.1.last_observed_index ≡ noted target_index t.last_observed_index
      → Verdict env tab_id source target_index t r
  -- In churn, soon after the last bump, nothing moves.
  held_back :
      is_destructive_delegate_source env source t ≡ true
      → is_churn_playback_bump_throttled env t ≡ true
      → r.0 ≡ false
      → Stays t r.1
      → Verdict env tab_id source target_index t r
  -- Else there is a new generation, and the one before is no longer current.
  moves_on :
      is_destructive_delegate_source env source t ≡ true
      → is_churn_playback_bump_throttled env t ≡ false
      → r.0 ≡ true
      → Moves env tab_id none t r.1
      → (is_current_playback_generation (some (current_of t)) r.1).0 ≡ false
      → Verdict env tab_id source target_index t r

note_target-Stays : (target_index : Option ℕ) (t : Tab) → Stays t (note_target target_index t)
note_target-Stays none t = record {
  current = refl;
  registry = refl;
  aborts = refl;
  playlist = omega arith;
}
note_target-Stays (some i) t = record {
  current = refl;
  registry = refl;
  aborts = refl;
  playlist = omega arith;
}

harmless_event :
    (env : Env) (tab_id : Option ℕ) (source : Option Text) (target_index : Option ℕ) (t : Tab)
    → is_destructive_delegate_source env source t ≡ false
    → Verdict env tab_id source target_index t
        (false, note_target target_index (bump_playlist_generation t).1)
harmless_event env tab_id source none t p = quiet p refl (playlist-Stays t) refl refl
harmless_event env tab_id source (some i) t p =
    quiet p refl
      (Stays-trans t (bump_playlist_generation t).1
        (note_target (some i) (bump_playlist_generation t).1) (playlist-Stays t)
        (note_target-Stays (some i) (bump_playlist_generation t).1))
      refl refl

destructive-sync :
    (env : Env) (source : Option Text) (t : Tab)
    → is_destructive_delegate_source env source (sync_legacy_network_generation t).1
      ≡ is_destructive_delegate_source env source t
unfolding is_destructive_delegate_source is_soft_scrub_delegate_source
    is_seek_prediction_passenger_phase
destructive-sync env source t = refl

throttled-sync :
    (env : Env) (t : Tab)
    → is_churn_playback_bump_throttled env (sync_legacy_network_generation t).1
      ≡ is_churn_playback_bump_throttled env t
unfolding is_churn_playback_bump_throttled
throttled-sync env t = refl

settled_event :
    (env : Env) (tab_id : Option ℕ) (source : Option Text) (target_index : Option ℕ) (t u : Tab)
    (g : ℕ)
    → is_destructive_delegate_source env source t ≡ true
    → Bumped env tab_id source none (sync_legacy_network_generation t).1 u
    → Verdict env tab_id source target_index t (after_bump (current_of t) (g, u))
unfolding after_bump
settled_event env tab_id source target_index t u g d (harmless p h k) =
    absurd (ground (arith, d, p, destructive-sync env source t))
settled_event env tab_id source target_index t u g d (throttled p q h) =
    let synced = (sync_legacy_network_generation t).1 in
    let same = Stays-trans t synced u (sync-Stays t) h in
    held_back d (sym (throttled-sync env t) ∙ q) (ground (arith, same.current))
      (Stays-trans t u (sync_legacy_network_generation u).1 same (sync-Stays u))
settled_event env tab_id source target_index t u g d (moved p q h) =
    let synced = (sync_legacy_network_generation t).1 in
    let over : current_of t < current_of u = h.current in
    moves_on d (sym (throttled-sync env t) ∙ q) (ground (arith, over))
      (record {
        current = over;
        registry = h.registry;
        aborts = h.aborts;
        time = h.time;
        playlist = h.playlist;
      })
      (ground (arith, over))

-- An event of the lifecycle advances the generation of playback exactly if its source is destructive
-- and the bump is not throttled: then the registry is empty, the tab is told of the new generation, and
-- the one before is no longer current. Else the generation, the registry and the messages are as they
-- were, and if the source is harmless, the generation of the playlist is one more.
pub evaluate_lifecycle_advancement_lem :
    (env : Env) (tab_id : Option ℕ) (source : Option Text) (target_index : Option ℕ) (t : Tab)
    → Verdict env tab_id source target_index t
        (evaluate_lifecycle_advancement env tab_id source target_index t)
unfolding evaluate_lifecycle_advancement
evaluate_lifecycle_advancement_lem env tab_id source target_index t =
    elim (Bool-cases (is_destructive_delegate_source env source t)) [
      | inr p ↦ rw p (harmless_event env tab_id source target_index t p)
      | inl p ↦
          let synced = (sync_legacy_network_generation t).1 in
          let bumped = bump_playback_generation env tab_id source none synced in
          rw p (
            settled_event env tab_id source target_index t bumped.1 bumped.0 p
              (bump-Bumped env tab_id source none synced))
    ]
