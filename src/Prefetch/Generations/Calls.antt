-- ===== src/Prefetch/Generations/Calls.antt =====
-- The calls of src/background/prefetch/state/network-generation.js, and what each keeps.
use aegis_stream.Prelude.Keys.{text_eq}
use aegis_stream.Prelude.OrdSet
use aegis_stream.Prelude.OrdSet.{has-add, has-delete}
use aegis_stream.Prelude.Texts.{print_number}
use aegis_stream.Prelude.{
  ℕ, ◌+◌, ◌≤◌, ◌≡◌, ◌≢◌, ap, ◌∙◌, Bool, true, false, inl, inr, Option, none, some, List, [], ◌∷◌,
  ◌++◌, arith, Bool-cases,
}
use aegis_stream.Prefetch.Generations.{
  Text, Tab, Env, or_zero, sync_legacy_network_generation, prefetch_registry_key,
}
use aegis_stream.Prefetch.Generations.Bumps.{
  or_label, bump_playback_generation, broadcast_delegated_prefetch_abort,
  evaluate_lifecycle_advancement, is_current_playback_generation, try_register_prefetch_download,
  release_prefetch_download,
}
use aegis_stream.Prefetch.Generations.Growth.{
  current_of, Stays, Moves, Bumped, harmless, throttled, moved, sync-Stays, bump-Bumped,
}
use aegis_stream.Prefetch.Generations.Events.{Verdict, quiet, held_back, moves_on}

-- A call of one of the functions.
pub data Call : Type 0 where
  bumps : Option ℕ → Option Text → Option (List Text) → Call
  broadcasts : Option ℕ → Bool → Option ℕ → Option Text → Option (List Text) → Call
  observes : Option ℕ → Option Text → Option ℕ → Call
  checks : Option ℕ → Call
  registers : Text → Call
  releases : Text → Call

unfoldable pub perform : Env → Call → Tab → Tab
perform env (bumps tab_id reason keep_urls) t =
    (bump_playback_generation env tab_id reason keep_urls t).1
perform env (broadcasts tab_id bumps_it generation reason keep_urls) t =
    (broadcast_delegated_prefetch_abort env tab_id bumps_it generation reason keep_urls t).1
perform env (observes tab_id source target_index) t =
    (evaluate_lifecycle_advancement env tab_id source target_index t).1
perform env (checks generation) t = (is_current_playback_generation generation t).1
perform env (registers url) t = (try_register_prefetch_download url t).1
perform env (releases url) t = release_prefetch_download url t

abbrev pub perform_all : List (Env × Call) → Tab → Tab
perform_all [] t = t
perform_all ((env, call) ∷ calls) t = perform_all calls (perform env call t)

-- Whether the URL is registered under the current generation.
abbrev pub is_held : Text → Tab → Bool
is_held url t = OrdSet.has (prefetch_registry_key (current_of t) url) t.prefetch_download_registry

-- Both generations do not shrink, and while that of playback is the same a URL stays registered.
pub record Onward (url : Text) (t u : Tab) : Type 0 where
  pub grows : current_of t ≤ current_of u
  pub lists : or_zero t.playlist_generation ≤ or_zero u.playlist_generation
  pub held : current_of u ≡ current_of t → is_held url t ≡ true → is_held url u ≡ true

-- The same for a tab whose registry has at least the same of the URL.
pub Stays-Onward : (url : Text) (t u : Tab) → Stays t u → Onward url t u
Stays-Onward url t u h = record {
  grows = omega (arith, h.current);
  lists = h.playlist;
  held = λ same k.
      ap (λ r. OrdSet.has (prefetch_registry_key (current_of u) url) r) h.registry
      ∙ ap (λ g. OrdSet.has (prefetch_registry_key g url) t.prefetch_download_registry) h.current
      ∙ k;
}

Moves-Onward :
    (url : Text) (env : Env) (tab_id : Option ℕ) (keep_urls : Option (List Text)) (t u : Tab)
    → Moves env tab_id keep_urls t u
    → Onward url t u
Moves-Onward url env tab_id keep_urls t u h = record {
  grows = omega (arith, h.current);
  lists = omega (arith, ap or_zero h.playlist);
  held = λ same k. absurd (omega (arith, h.current, same));
}

pub Onward-trans : (url : Text) (t u v : Tab) → Onward url t u → Onward url u v → Onward url t v
Onward-trans url t u v h k = record {
  grows = omega (arith, h.grows, k.grows);
  lists = omega (arith, h.lists, k.lists);
  held = λ same held.
      let middle : current_of u ≡ current_of t = omega (arith, same, h.grows, k.grows) in
      let last : current_of v ≡ current_of u = omega (arith, same, h.grows, k.grows) in
      k.held last (h.held middle held);
}

pub Bumped-Onward :
    (url : Text) (env : Env) (tab_id : Option ℕ) (reason : Option Text)
    (keep_urls : Option (List Text)) (t u : Tab)
    → Bumped env tab_id reason keep_urls t u
    → Onward url t u
Bumped-Onward url env tab_id reason keep_urls t u (harmless p h k) = Stays-Onward url t u h
Bumped-Onward url env tab_id reason keep_urls t u (throttled p q h) = Stays-Onward url t u h
Bumped-Onward url env tab_id reason keep_urls t u (moved p q h) =
    Moves-Onward url env tab_id keep_urls t u h

pub Verdict-Onward :
    (url : Text) (env : Env) (tab_id : Option ℕ) (source : Option Text) (target_index : Option ℕ)
    (t : Tab) (r : Bool × Tab)
    → Verdict env tab_id source target_index t r
    → Onward url t r.1
Verdict-Onward url env tab_id source target_index t r (quiet p q h k l) = Stays-Onward url t r.1 h
Verdict-Onward url env tab_id source target_index t r (held_back p q s h) = Stays-Onward url t r.1 h
Verdict-Onward url env tab_id source target_index t r (moves_on p q s h k) =
    Moves-Onward url env tab_id none t r.1 h

pub broadcast-Onward :
    (url : Text) (env : Env) (tab_id : Option ℕ) (bumps_it : Bool) (generation : Option ℕ)
    (reason : Option Text) (keep_urls : Option (List Text)) (t : Tab)
    → Onward url t
        (broadcast_delegated_prefetch_abort env tab_id bumps_it generation reason keep_urls t).1
unfolding broadcast_delegated_prefetch_abort
broadcast-Onward url env none bumps_it generation reason keep_urls t =
    Stays-Onward url t (sync_legacy_network_generation t).1 (sync-Stays t)
broadcast-Onward url env (some i) true generation reason keep_urls t =
    let synced = (sync_legacy_network_generation t).1 in
    let label = some (or_label reason "abort-broadcast") in
    let u = (bump_playback_generation env (some i) label none synced).1 in
    Onward-trans url t synced u (Stays-Onward url t synced (sync-Stays t)) (
      Bumped-Onward url env (some i) label none synced u
        (bump-Bumped env (some i) label none synced))
broadcast-Onward url env (some i) false generation reason keep_urls t =
    let h = Stays-Onward url t (sync_legacy_network_generation t).1 (sync-Stays t) in
    record { grows = h.grows; lists = h.lists; held = h.held }

append-cancel : (xs ys zs : Text) → xs ++ ys ≡ xs ++ zs → ys ≡ zs
append-cancel [] ys zs h = h
append-cancel (x ∷ xs) ys zs h = append-cancel xs ys zs cc

-- Other URLs have other keys.
key-other :
    (generation : ℕ) (url other : Text)
    → other ≢ url
    → prefetch_registry_key generation other ≢ prefetch_registry_key generation url
key-other generation url other differ h =
    let tails : b'|' ∷ other ≡ b'|' ∷ url =
      append-cancel (print_number (generation + 1) generation) (b'|' ∷ other) (b'|' ∷ url) h in
    differ cc

pub register-Onward :
    (url other : Text) (t : Tab) → Onward url t (try_register_prefetch_download other t).1
unfolding try_register_prefetch_download
register-Onward url [] t = record { grows = omega arith; lists = omega arith; held = λ same k. k }
register-Onward url (c ∷ cs) t =
    let synced = (sync_legacy_network_generation t).1 in
    let key = prefetch_registry_key (current_of t) (c ∷ cs) in
    let h = Stays-Onward url t synced (sync-Stays t) in
    elim (Bool-cases (OrdSet.has key synced.prefetch_download_registry)) [
      | inl p ↦ rw p h
      | inr p ↦ rw p (record {
        grows = h.grows;
        lists = h.lists;
        held = λ same k.
            let mine = prefetch_registry_key (current_of t) url in
            ground (arith, has-add mine key t.prefetch_download_registry, k);
      })
    ]

pub release-Onward :
    (url other : Text) (t : Tab) → other ≢ url → Onward url t (release_prefetch_download other t)
unfolding release_prefetch_download
release-Onward url [] t differ = record {
  grows = omega arith;
  lists = omega arith;
  held = λ same k. k;
}
release-Onward url (c ∷ cs) t differ =
    let synced = (sync_legacy_network_generation t).1 in
    let h = Stays-Onward url t synced (sync-Stays t) in
    record {
      grows = h.grows;
      lists = h.lists;
      held = λ same k.
          let mine = prefetch_registry_key (current_of t) url in
          let key = prefetch_registry_key (current_of t) (c ∷ cs) in
          ground (
            arith,
            has-delete mine key t.prefetch_download_registry,
            k,
            key-other (current_of t) url (c ∷ cs) differ,
          );
    }
