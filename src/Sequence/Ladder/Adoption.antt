-- ===== src/Sequence/Ladder/Adoption.antt =====
-- src/background/media/segment-sequence.js adopts a ladder only after a run of fresh observations.
use aegis_stream.Prelude.Keys.{nat_eq}
use aegis_stream.Prelude.OrdMap
use aegis_stream.Prelude.OrdMap.{OrdMap, keys}
use aegis_stream.Prelude.{ℕ, ◌≤◌, ◌≡◌, Bool, true, false, Option, some}
use aegis_stream.Sequence.Pattern.{
  Url, Pattern, parse_sequential_segment_url, build_sequential_segment_urls,
}
use aegis_stream.Sequence.Ladder.{
  Tunables, min_bytes_of, synth_count_of, Tracker, Env, Trackers, tracker_for,
}
use aegis_stream.Sequence.Ladder.Streaks.{LongRun}

-- A ladder was adopted: the observation and what the tab has now.
pub record Adopted (t : Tunables) (env : Env) (now tab : ℕ) (url : Option Url) (byte_length : ℕ)
    (m : Trackers) (result : Bool × Trackers) : Type 0 where
  pub pattern : Pattern
  pub parsed : parse_sequential_segment_url t.min_digits url ≡ some pattern
  pub large : min_bytes_of t ≤ byte_length
  pub no_playlist : env.has_real_playlist ≡ false
  pub first : (tracker_for pattern (OrdMap.get tab m)).adopted ≡ false
  pub after : Tracker
  pub stored : OrdMap.get tab result.1 ≡ some after
  pub marked : after.adopted ≡ true
  pub laddered : after.ladder ≡ build_sequential_segment_urls pattern (synth_count_of t)
  pub run : LongRun t now after.seen

abbrev laddered_of : Tunables → Tracker → Tracker
laddered_of t tracker = record tracker {
  adopted = true;
  ladder = build_sequential_segment_urls tracker.pattern (synth_count_of t);
}
