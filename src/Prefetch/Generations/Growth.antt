-- ===== src/Prefetch/Generations/Growth.antt =====
-- The generations of src/background/prefetch/state/network-generation.js only grow.
use aegis_stream.Prelude.{
  ℕ, ◌+◌, ◌≤◌, ◌<◌, ◌≡◌, refl, ◌∙◌, Bool, true, false, inl, inr, Option, none, some, List, [], ◌∷◌,
  arith, Bool-cases, Option-cases,
}
use aegis_stream.Prefetch.Generations.{
  Text, Abort, Tab, Env, or_zero, sync_legacy_network_generation, is_destructive_delegate_source,
  is_churn_playback_bump_throttled,
}
use aegis_stream.Prefetch.Generations.Bumps.{
  bump_playlist_generation, generation_before, note_bump, advance, bump_playback_generation,
}

-- The generation of playback that every call works with.
abbrev pub current_of : Tab → ℕ
current_of t = (sync_legacy_network_generation t).0

-- The generation of playback and its registry are as they were.
pub record Stays (t u : Tab) : Type 0 where
  pub current : current_of u ≡ current_of t
  pub registry : u.prefetch_download_registry ≡ t.prefetch_download_registry
  pub aborts : u.aborts ≡ t.aborts
  pub playlist : or_zero t.playlist_generation ≤ or_zero u.playlist_generation

-- The messages to a tab after one more of a generation, which only a tab with a number gets.
abbrev pub told : Option ℕ → ℕ → Option (List Text) → List Abort → List Abort
told none generation keep_urls aborts = aborts
told (some tab_id) generation keep_urls aborts =
    record { generation = generation; keep_urls = keep_urls } ∷ aborts

pub sync-Stays : (t : Tab) → Stays t (sync_legacy_network_generation t).1
sync-Stays t = record { current = refl; registry = refl; aborts = refl; playlist = omega arith }

pub Stays-trans : (t u v : Tab) → Stays t u → Stays u v → Stays t v
Stays-trans t u v h k = record {
  current = k.current ∙ h.current;
  registry = k.registry ∙ h.registry;
  aborts = k.aborts ∙ h.aborts;
  playlist = omega (arith, h.playlist, k.playlist);
}

generation_before-over : (t : Tab) → current_of t < generation_before t + 1
generation_before-over t = elim (Option-cases t.playback_generation) [
  | inl p ↦ ground (arith, p)
  | inr (g, p) ↦ ground (arith, p)
]

-- A new generation, with an empty registry; the tab is told of it, where its id is a number.
pub record Moves (env : Env) (tab_id : Option ℕ) (keep_urls : Option (List Text)) (t u : Tab)
    : Type 0 where
  pub current : current_of t < current_of u
  pub registry : u.prefetch_download_registry ≡ []
  pub aborts : u.aborts ≡ told tab_id (current_of u) keep_urls t.aborts
  pub time : u.last_playback_generation_bump_at ≡ env.now
  pub playlist : u.playlist_generation ≡ t.playlist_generation

advance-Moves :
    (env : Env) (tab_id : Option ℕ) (keep_urls : Option (List Text)) (t : Tab)
    → Moves env tab_id keep_urls t (advance env tab_id keep_urls t).1
unfolding advance
advance-Moves env none keep_urls t = record {
  current = generation_before-over t;
  registry = refl;
  aborts = refl;
  time = refl;
  playlist = refl;
}
advance-Moves env (some i) keep_urls t = record {
  current = generation_before-over t;
  registry = refl;
  aborts = refl;
  time = refl;
  playlist = refl;
}

-- What a bump does, and which of three it is.
pub data Bumped (env : Env) (tab_id : Option ℕ) (reason : Option Text)
    (keep_urls : Option (List Text)) (t u : Tab) : Type 0 where
  harmless :
      is_destructive_delegate_source env reason t ≡ false
      → Stays t u
      → or_zero u.playlist_generation ≡ or_zero t.playlist_generation + 1
      → Bumped env tab_id reason keep_urls t u
  throttled :
      is_destructive_delegate_source env reason t ≡ true
      → is_churn_playback_bump_throttled env t ≡ true
      → Stays t u
      → Bumped env tab_id reason keep_urls t u
  moved :
      is_destructive_delegate_source env reason t ≡ true
      → is_churn_playback_bump_throttled env t ≡ false
      → Moves env tab_id keep_urls t u
      → Bumped env tab_id reason keep_urls t u

pub playlist-Stays : (t : Tab) → Stays t (bump_playlist_generation t).1
playlist-Stays t = record { current = refl; registry = refl; aborts = refl; playlist = omega arith }

note_bump-Stays : (b : Bool) (t : Tab) → Stays t (note_bump b t)
note_bump-Stays b t = record {
  current = refl;
  registry = refl;
  aborts = refl;
  playlist = omega arith;
}

pub bump-Bumped :
    (env : Env) (tab_id : Option ℕ) (reason : Option Text) (keep_urls : Option (List Text))
    (t : Tab)
    → Bumped env tab_id reason keep_urls t
        (bump_playback_generation env tab_id reason keep_urls t).1
unfolding bump_playback_generation
bump-Bumped env tab_id reason keep_urls t =
    elim (Bool-cases (is_destructive_delegate_source env reason t)) [
      | inr p ↦
          let u = (bump_playlist_generation t).1 in
          rw p (
            harmless p
              (Stays-trans t u (sync_legacy_network_generation u).1 (playlist-Stays t)
                (sync-Stays u))
              refl)
      | inl p ↦ elim (Bool-cases (is_churn_playback_bump_throttled env t)) [
        | inl q ↦
            let u = note_bump true t in
            rw (p, q)
              (throttled p q (
                Stays-trans t u (sync_legacy_network_generation u).1 (note_bump-Stays true t)
                  (sync-Stays u)))
        | inr q ↦ rw (p, q) (moved p q (advance-Moves env tab_id keep_urls t))
      ]
    ]
