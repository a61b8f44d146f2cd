-- ===== src/Prefetch/Playback/Meaning.antt =====
-- What the transitions of src/background/prefetch/state/playback-state-machine.js mean.
use aegis_stream.Prelude.{
  ◌≡◌, refl, String, Bool, true, false, not, ◌||◌, Option, none, some, if◌then◌else◌, arith,
}
use aegis_stream.Prefetch.Playback.{
  PlaybackState, session_establishing, stable_playback, token_refreshing, quality_switching,
  episode_switched, Snapshot, Next, Transition, Evidence, compare_snapshots, has_previous,
  session_key_of, decide_transition, determine_playback_transition, both_differ,
}

abbrev pub discards : PlaybackState → Bool
discards quality_switching = true
discards episode_switched = true
discards s = false

abbrev pub new_session : PlaybackState → Bool
new_session session_establishing = true
new_session episode_switched = true
new_session s = false

abbrev pub changes_quality : PlaybackState → Bool
changes_quality quality_switching = true
changes_quality s = false

-- The transition into a state: prefetched segments are discarded by a switch of quality or episode,
-- and the anchor is retained within a session.
abbrev pub described : PlaybackState → String → Transition
described s key = record {
  state = s;
  clear_prefetch = discards s;
  retain_anchor = not (new_session s);
  quality_switch = changes_quality s;
  session_key = key;
  session_changed = new_session s;
}

-- The state, read off the evidence: without a predecessor, at an episode boundary, with new URLs,
-- and with the old ones.
abbrev pub state_of : Evidence → Next → PlaybackState
state_of e next =
    if not e.has_previous
    then session_establishing
    else if next.episode_changed
    then episode_switched
    else if next.urls_changed
    then (if next.timeline_geometry_unchanged || not e.structural_hash_changed
        then token_refreshing
        else if e.rung_label_changed || e.media_path_changed
        then quality_switching
        else stable_playback)
    else (if e.session_changed
        then episode_switched
        else if e.rung_label_changed || e.media_path_changed
        then token_refreshing
        else stable_playback)

decide_lem :
    (e : Evidence) (next : Next)
    → decide_transition e next ≡ described (state_of e next) (session_key_of next)
unfolding decide_transition
decide_lem e next = ground arith

-- Every transition is the one described: the state is read off the evidence, where new URLs with an
-- unchanged structure or timeline are a token refresh, new URLs with a new structure are a change
-- of quality if the rung or the path changed, and a new session key is an episode only with the old
-- URLs; the flags follow from the state.
pub determine_playback_transition_lem :
    (previous : Option Snapshot) (next : Next)
    → determine_playback_transition previous next
      ≡ described (state_of (compare_snapshots previous next) next) (session_key_of next)
unfolding determine_playback_transition
determine_playback_transition_lem previous next = decide_lem (compare_snapshots previous next) next

differ-none : (a : Option String) → both_differ a none ≡ false
differ-none none = refl
differ-none (some a) = refl

flags :
    (e : Evidence) (next : Next)
    → e.session_changed ≡ false
    → e.structural_hash_changed ≡ false
    → next.episode_changed ≡ false
    → (discards (state_of e next) ≡ false) × (not (new_session (state_of e next)) ≡ e.has_previous)
flags e next a b c = ground (arith, a, b, c)

-- A snapshot that names no session key and no structural hash, and marks no episode boundary, never
-- discards what is prefetched; and it keeps the anchor unless the previous snapshot is missing or empty.
pub partial_snapshot-keeps :
    (previous : Option Snapshot) (next : Next)
    → next.session_key ≡ none
    → next.structural_hash ≡ none
    → next.episode_changed ≡ false
    → ((determine_playback_transition previous next).clear_prefetch ≡ false)
      × ((determine_playback_transition previous next).retain_anchor ≡ has_previous previous)
partial_snapshot-keeps none next a b c =
    rw (determine_playback_transition_lem none next) (refl, refl)
partial_snapshot-keeps (some previous) next a b c =
    let e = compare_snapshots (some previous) next in
    let same_session : both_differ previous.session_key next.session_key ≡ false =
      rw a (differ-none previous.session_key) in
    let same_hash : both_differ previous.structural_hash next.structural_hash ≡ false =
      rw b (differ-none previous.structural_hash) in
    rw (determine_playback_transition_lem (some previous) next)
      (flags e next same_session same_hash c)
