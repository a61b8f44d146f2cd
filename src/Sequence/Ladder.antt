-- ===== src/Sequence/Ladder.antt =====
-- When src/background/media/segment-sequence.js adopts a ladder: a tab's observations of segments.
--
-- A tab is a number. What `upsertPlaylistState` makes of a ladder is a flag of the environment, as
-- are the settings and the tab's playlist.
pub mod Streaks
pub mod Adoption
mod Tests
use aegis_stream.Prelude.Keys.{nat_eq}
use aegis_stream.Prelude.OrdMap
use aegis_stream.Prelude.OrdMap.{OrdMap, keys}
use aegis_stream.Prelude.{
  ℕ, ◌+◌, ◌-◌, Bool, true, false, not, ◌&&◌, ◌||◌, Option, none, some, List, [], ◌∷◌, ◌++◌, ltb,
  leb, if◌then◌else◌, length, max, positive_or, retain, sort,
}
use aegis_stream.Prelude.Texts.{same_text, print_number}
use aegis_stream.Sequence.Pattern.{
  Text, Url, Pattern, parse_sequential_segment_url, build_sequential_segment_urls,
}

-- The tunable constants; one that is not set to a positive number is `none` or 0.
pub record Tunables : Type 0 where
  pub min_bytes : Option ℕ
  pub min_observations : Option ℕ
  pub max_index_gap : Option ℕ
  pub observation_ttl_ms : Option ℕ
  pub synth_count : Option ℕ
  pub min_digits : Option ℕ

abbrev pub min_bytes_of : Tunables → ℕ
min_bytes_of t = positive_or 262_144 t.min_bytes

abbrev pub min_observations_of : Tunables → ℕ
min_observations_of t = max 2 (positive_or 3 t.min_observations)

abbrev pub max_index_gap_of : Tunables → ℕ
max_index_gap_of t = positive_or 3 t.max_index_gap

abbrev pub observation_ttl_of : Tunables → ℕ
observation_ttl_of t = positive_or 180_000 t.observation_ttl_ms

abbrev pub synth_count_of : Tunables → ℕ
synth_count_of t = max 1 (positive_or 2_000 t.synth_count)

-- `patternKey`
pub pattern_key : Pattern → Text
unfolding print_number
pattern_key p =
    p.dir
    ++ (b'|'
        ∷ (p.prefix
            ++ (b'|'
                ∷ (print_number (p.width + 1) p.width
                    ++ (b'|' ∷ (p.suffix ++ (b'|' ∷ p.search)))))))

-- `seen` has the time of the last observation of each index; `ladder` is what was adopted.
pub record Tracker : Type 0 where
  pub pattern : Pattern
  pub seen : OrdMap ℕ ℕ
  pub adopted : Bool
  pub ladder : List Text

abbrev pub prune_observations : Tunables → ℕ → OrdMap ℕ ℕ → OrdMap ℕ ℕ
prune_observations t now =
    retain λ (index, seen_at). not (ltb (observation_ttl_of t) (now - seen_at))

-- The loop over the sorted indices, from the one before on.
pub run_from : ℕ → ℕ → ℕ → ℕ → List ℕ → Bool
run_from min_observations max_gap last run [] = false
run_from min_observations max_gap last run (index ∷ rest) =
    let longer = if ltb last index && leb (index - last) max_gap then run + 1 else 1 in
    let more = run_from min_observations max_gap index longer rest in
    if leb min_observations longer then true else more

pub run_in : ℕ → ℕ → List ℕ → Bool
unfolding run_from
run_in min_observations max_gap [] = false
run_in min_observations max_gap (index ∷ rest) = run_from min_observations max_gap index 1 rest

pub has_consecutive_run : Tunables → OrdMap ℕ ℕ → Bool
unfolding run_in
has_consecutive_run t seen =
    let indices = sort (keys seen) in
    if ltb (length indices) (min_observations_of t)
    then false
    else run_in (min_observations_of t) (max_index_gap_of t) indices

-- What the call finds: the settings, the tab's playlist, the host, and whether the tab takes a ladder.
pub record Env : Type 0 where
  pub enabled : Bool
  pub prefetch_enabled : Bool
  pub has_real_playlist : Bool
  pub is_embed_host : Bool
  pub takes_ladder : Bool

abbrev pub Trackers : Type 0
Trackers = OrdMap ℕ Tracker

pub new_tracker : Pattern → Tracker
new_tracker p = record { pattern = p; seen = []; adopted = false; ladder = [] }

-- The tracker of the tab, if it is of this pattern, or a new one.
pub tracker_for : Pattern → Option Tracker → Tracker
unfolding new_tracker pattern_key
tracker_for p none = new_tracker p
tracker_for p (some tracker) =
    if same_text (pattern_key tracker.pattern) (pattern_key p) then tracker else new_tracker p

-- `tracker.seen.set(…)`, and the pruning.
pub observe : Tunables → ℕ → Pattern → Tracker → Tracker
observe t now p tracker = record tracker {
  pattern = p;
  seen = prune_observations t now (OrdMap.set p.index now tracker.seen);
}

-- `adoptSequentialLadder`; a ladder has one URL at least.
pub adopt_sequential_ladder : Tunables → Env → Tracker → Bool × Tracker
adopt_sequential_ladder t env tracker =
    if env.takes_ladder
    then (
      true,
      record tracker {
        adopted = true;
        ladder = build_sequential_segment_urls tracker.pattern (synth_count_of t);
      },
    )
    else (false, tracker)

pub judge : Tunables → Env → Tracker → Bool × Tracker
unfolding adopt_sequential_ladder has_consecutive_run
judge t env tracker =
    if tracker.adopted
    then (false, tracker)
    else if has_consecutive_run t tracker.seen
    then adopt_sequential_ladder t env tracker
    else (false, tracker)

abbrev pub store_tracker : ℕ → Bool × Tracker → Trackers → Bool × Trackers
store_tracker tab (adopts, tracker) m = (adopts, OrdMap.set tab tracker m)

-- The guards before the URL is parsed.
abbrev pub is_candidate : Tunables → Env → ℕ → Bool
is_candidate t env byte_length =
    env.enabled
    && env.prefetch_enabled
    && leb (min_bytes_of t) byte_length
    && not env.has_real_playlist

pub note_pattern : Tunables → Env → ℕ → ℕ → Pattern → Trackers → Bool × Trackers
unfolding tracker_for observe judge
note_pattern t env now tab p m =
    store_tracker tab (judge t env (observe t now p (tracker_for p (OrdMap.get tab m)))) m

-- `noteSequentialSegmentObservation`, of what `new URL` gave; a tab that is no finite number is `none`.
pub note_sequential_segment_observation :
    Tunables → Env → ℕ → Option ℕ → Option Url → ℕ → Trackers → Bool × Trackers
unfolding note_pattern
note_sequential_segment_observation t env now none url byte_length m = (false, m)
note_sequential_segment_observation t env now (some tab) url byte_length m =
    if is_candidate t env byte_length
    then elim (parse_sequential_segment_url t.min_digits url) [
      | none ↦ (false, m)
      | some p ↦ if env.is_embed_host then (false, m) else note_pattern t env now tab p m
    ]
    else (false, m)

pub reset_sequential_segment_tracking : Option ℕ → Trackers → Trackers
reset_sequential_segment_tracking none m = []
reset_sequential_segment_tracking (some tab) m = OrdMap.delete tab m
