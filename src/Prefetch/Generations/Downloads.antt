-- ===== src/Prefetch/Generations/Downloads.antt =====
-- The downloads that src/background/prefetch/state/network-generation.js registers, over any calls.
use aegis_stream.Prelude.Keys.{text_eq}
use aegis_stream.Prelude.OrdSet
use aegis_stream.Prelude.OrdSet.{has-add, has-delete}
use aegis_stream.Prelude.{
  ◌≤◌, ◌≡◌, ◌≢◌, refl, sym, ◌∙◌, true, false, inl, inr, none, some, List, [], ◌∷◌, arith,
  Bool-cases,
}
use aegis_stream.Prefetch.Generations.{
  Text, Tab, Env, or_zero, sync_legacy_network_generation, prefetch_registry_key,
}
use aegis_stream.Prefetch.Generations.Bumps.{
  bump_playback_generation, evaluate_lifecycle_advancement, try_register_prefetch_download,
  release_prefetch_download,
}
use aegis_stream.Prefetch.Generations.Growth.{current_of, sync-Stays, bump-Bumped}
use aegis_stream.Prefetch.Generations.Events.{evaluate_lifecycle_advancement_lem}
use aegis_stream.Prefetch.Generations.Calls.{
  Call, bumps, broadcasts, observes, checks, registers, releases, perform, perform_all, is_held,
  Onward, Stays-Onward, Onward-trans, Bumped-Onward, Verdict-Onward, broadcast-Onward,
  register-Onward, release-Onward,
}

-- The call does not release the URL.
abbrev pub Spares : Text → Call → Type 0
Spares url (releases other) = other ≢ url
Spares url call = Unit

abbrev pub AllSpare : Text → List (Env × Call) → Type 0
AllSpare url [] = Unit
AllSpare url ((env, call) ∷ calls) = Spares url call × AllSpare url calls

perform-Onward :
    (url : Text) (env : Env) (call : Call) (t : Tab)
    → Spares url call
    → Onward url t (perform env call t)
unfolding perform
perform-Onward url env (bumps tab_id reason keep_urls) t h =
    Bumped-Onward url env tab_id reason keep_urls t
      (bump_playback_generation env tab_id reason keep_urls t).1
      (bump-Bumped env tab_id reason keep_urls t)
perform-Onward url env (broadcasts tab_id bumps_it generation reason keep_urls) t h =
    broadcast-Onward url env tab_id bumps_it generation reason keep_urls t
perform-Onward url env (observes tab_id source target_index) t h =
    Verdict-Onward url env tab_id source target_index t
      (evaluate_lifecycle_advancement env tab_id source target_index t)
      (evaluate_lifecycle_advancement_lem env tab_id source target_index t)
perform-Onward url env (checks none) t h = record {
  grows = omega arith;
  lists = omega arith;
  held = λ same k. k;
}
perform-Onward url env (checks (some g)) t h =
    Stays-Onward url t (sync_legacy_network_generation t).1 (sync-Stays t)
perform-Onward url env (registers other) t h = register-Onward url other t
perform-Onward url env (releases other) t h = release-Onward url other t h

perform_all-Onward :
    (url : Text) (calls : List (Env × Call)) (t : Tab)
    → AllSpare url calls
    → Onward url t (perform_all calls t)
perform_all-Onward url [] t h = record {
  grows = omega arith;
  lists = omega arith;
  held = λ same k. k;
}
perform_all-Onward url ((env, call) ∷ calls) t h =
    let u = perform env call t in
    Onward-trans url t u (perform_all calls u) (perform-Onward url env call t h.0)
      (perform_all-Onward url calls u h.1)

-- A URL that was registered is registered.
registered_held :
    (url : Text) (t : Tab)
    → (try_register_prefetch_download url t).0 ≡ true
    → (current_of (try_register_prefetch_download url t).1 ≡ current_of t)
      × (is_held url (try_register_prefetch_download url t).1 ≡ true)
unfolding try_register_prefetch_download
registered_held [] t h = absurd cc
registered_held (c ∷ cs) t h =
    let key = prefetch_registry_key (current_of t) (c ∷ cs) in
    elim (Bool-cases (OrdSet.has key t.prefetch_download_registry)) [
      | inl p ↦ absurd (ground (arith, h, p))
      | inr p ↦ rw p (refl, ground (arith, has-add key key t.prefetch_download_registry))
    ]

refused_while_held :
    (url : Text) (t : Tab) → is_held url t ≡ true → (try_register_prefetch_download url t).0 ≡ false
unfolding try_register_prefetch_download
refused_while_held [] t h = refl
refused_while_held (c ∷ cs) t h = rw h refl

-- After a download of a URL was registered, it is not registered again by any calls that do not
-- release it, as long as the generation of playback is the same.
pub perform_all-once :
    (url : Text) (calls : List (Env × Call)) (t : Tab)
    → (try_register_prefetch_download url t).0 ≡ true
    → AllSpare url calls
    → current_of (perform_all calls (try_register_prefetch_download url t).1) ≡ current_of t
    → (try_register_prefetch_download url
        (perform_all calls (try_register_prefetch_download url t).1)).0
      ≡ false
perform_all-once url calls t registered spared same =
    let u = (try_register_prefetch_download url t).1 in
    let (current, held) = registered_held url t registered in
    let h = perform_all-Onward url calls u spared in
    refused_while_held url (perform_all calls u) (h.held (same ∙ sym current) held)

perform-grows :
    (env : Env) (call : Call) (t : Tab)
    → (current_of t ≤ current_of (perform env call t))
      × (or_zero t.playlist_generation ≤ or_zero (perform env call t).playlist_generation)
unfolding perform release_prefetch_download
perform-grows env (bumps tab_id reason keep_urls) t =
    let h = perform-Onward [] env (bumps tab_id reason keep_urls) t tt in (h.grows, h.lists)
perform-grows env (broadcasts tab_id bumps_it generation reason keep_urls) t =
    let h = perform-Onward [] env (broadcasts tab_id bumps_it generation reason keep_urls) t tt in
    (h.grows, h.lists)
perform-grows env (observes tab_id source target_index) t =
    let h = perform-Onward [] env (observes tab_id source target_index) t tt in (h.grows, h.lists)
perform-grows env (checks generation) t =
    let h = perform-Onward [] env (checks generation) t tt in (h.grows, h.lists)
perform-grows env (registers url) t =
    let h = perform-Onward [] env (registers url) t tt in (h.grows, h.lists)
perform-grows env (releases []) t = (omega arith, omega arith)
perform-grows env (releases (c ∷ cs)) t = (omega arith, omega arith)

-- No calls make the generation of playback or that of the playlist smaller.
pub perform_all-grows :
    (calls : List (Env × Call)) (t : Tab)
    → (current_of t ≤ current_of (perform_all calls t))
      × (or_zero t.playlist_generation ≤ or_zero (perform_all calls t).playlist_generation)
perform_all-grows [] t = (omega arith, omega arith)
perform_all-grows ((env, call) ∷ calls) t =
    omega (arith, perform-grows env call t, perform_all-grows calls (perform env call t))
