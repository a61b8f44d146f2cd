-- ===== src/Prefetch/Playback.antt =====
-- src/background/prefetch/state/playback-state-machine.js: what a new snapshot of the playlist means.
--
-- A text field that is missing or empty, which the code treats alike, is `none`.
pub mod Meaning
use aegis_stream.Prelude.Keys.{◌===◌, string_eq}
use aegis_stream.Prelude.{
  ℕ, String, Bool, true, false, not, ◌&&◌, ◌||◌, Option, none, some, if◌then◌else◌, ltb, is_some,
}

pub data PlaybackState : Type 0 where
  idle session_establishing stable_playback token_refreshing quality_switching episode_switched :
      PlaybackState

pub record Snapshot : Type 0 where
  pub session_key : Option String
  pub structural_hash : Option String
  pub active_rung_label : Option String
  pub media_playlist_path : Option String
  pub segment_count : ℕ

-- `composite_key` is what `getCompositeSessionKey` gives of the snapshot's other fields.
pub record Next : Type 0 where
  pub snapshot : Snapshot
  pub open snapshot use *
  pub composite_key : String
  pub episode_changed : Bool
  pub timeline_geometry_unchanged : Bool
  pub urls_changed : Bool

pub record Transition : Type 0 where
  pub state : PlaybackState
  pub clear_prefetch : Bool
  pub retain_anchor : Bool
  pub quality_switch : Bool
  pub session_key : String
  pub session_changed : Bool

-- `Boolean(a) && Boolean(b) && a !== b`
abbrev pub both_differ : Option String → Option String → Bool
both_differ none b = false
both_differ (some a) none = false
both_differ (some a) (some b) = not (a === b)

abbrev pub session_key_of : Next → String
session_key_of next = elim next.session_key [ none ↦ next.composite_key | some key ↦ key ]

abbrev pub has_previous : Option Snapshot → Bool
has_previous none = false
has_previous (some previous) =
    ltb 0 previous.segment_count || is_some previous.structural_hash || is_some previous.session_key

-- The objects that the function returns, by their state and flags.
abbrev establishing : String → Transition
establishing key = record {
  state = session_establishing;
  clear_prefetch = false;
  retain_anchor = false;
  quality_switch = false;
  session_key = key;
  session_changed = true;
}

abbrev switched : String → Transition
switched key = record {
  state = episode_switched;
  clear_prefetch = true;
  retain_anchor = false;
  quality_switch = false;
  session_key = key;
  session_changed = true;
}

abbrev refreshing : String → Transition
refreshing key = record {
  state = token_refreshing;
  clear_prefetch = false;
  retain_anchor = true;
  quality_switch = false;
  session_key = key;
  session_changed = false;
}

abbrev switching : String → Transition
switching key = record {
  state = quality_switching;
  clear_prefetch = true;
  retain_anchor = true;
  quality_switch = true;
  session_key = key;
  session_changed = false;
}

abbrev stable : String → Transition
stable key = record {
  state = stable_playback;
  clear_prefetch = false;
  retain_anchor = true;
  quality_switch = false;
  session_key = key;
  session_changed = false;
}

-- What the comparison of two snapshots gives.
pub record Evidence : Type 0 where
  pub has_previous : Bool
  pub session_changed : Bool
  pub structural_hash_changed : Bool
  pub rung_label_changed : Bool
  pub media_path_changed : Bool

abbrev pub no_evidence : Evidence
no_evidence = record {
  has_previous = false;
  session_changed = false;
  structural_hash_changed = false;
  rung_label_changed = false;
  media_path_changed = false;
}

abbrev pub compare_snapshots : Option Snapshot → Next → Evidence
compare_snapshots none next = no_evidence
compare_snapshots (some previous) next = record {
  has_previous = has_previous (some previous);
  session_changed = both_differ previous.session_key next.session_key;
  structural_hash_changed = both_differ previous.structural_hash next.structural_hash;
  rung_label_changed = both_differ previous.active_rung_label next.active_rung_label;
  media_path_changed = both_differ previous.media_playlist_path next.media_playlist_path;
}

unfoldable pub decide_transition : Evidence → Next → Transition
decide_transition e next =
    let key = session_key_of next in
    if not e.has_previous
    then establishing key
    else if next.episode_changed
    then switched key
    else if next.timeline_geometry_unchanged && next.urls_changed
    then refreshing key
    else if next.urls_changed
        && not e.structural_hash_changed
        && not e.rung_label_changed
        && not e.media_path_changed
    then refreshing key
    else if e.session_changed && not next.urls_changed
    then switched key
    else if e.rung_label_changed || e.media_path_changed
    then (if not e.structural_hash_changed || not next.urls_changed
        then refreshing key
        else switching key)
    else if e.structural_hash_changed && next.urls_changed
    then stable key
    else if next.urls_changed
    then refreshing key
    else stable key

unfoldable pub determine_playback_transition : Option Snapshot → Next → Transition
unfolding decide_transition
determine_playback_transition previous next =
    decide_transition (compare_snapshots previous next) next
