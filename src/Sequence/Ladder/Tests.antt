-- ===== src/Sequence/Ladder/Tests.antt =====
-- Runs of src/background/media/segment-sequence.js on small inputs.
use aegis_stream.Prelude.OrdMap
use aegis_stream.Prelude.Texts.{codes}
use aegis_stream.Prelude.{◌≡◌, refl, true, false, none, some, [], ◌∷◌, get_elem?, arith}
use aegis_stream.Sequence.Pattern.{
  Url, Pattern, parse_sequential_segment_url, segment_url, build_sequential_segment_urls,
  split_path, match_basename, is_tail, digits_of, after_digits, is_suffix, all_alnum,
}
use aegis_stream.Sequence.Pattern.Siblings.{Sibling, segment_url-Sibling}
use aegis_stream.Sequence.Ladder.{Tunables, Env, Trackers}

abbrev segment : Url
segment = record {
  origin = codes "https://c";
  pathname = codes "/v2/seg_007.jpg";
  search = codes "?q=1";
}

abbrev pattern_7 : Pattern
pattern_7 = record {
  dir = codes "https://c/v2/";
  prefix = codes "seg_";
  width = 3;
  suffix = codes ".jpg";
  search = codes "?q=1";
  index = 7;
}

segment_url-Sibling_example :
    (get_elem? (build_sequential_segment_urls pattern_7 20) 12 ≡ some (segment_url pattern_7 12))
    × Sibling none segment pattern_7 12
unfolding parse_sequential_segment_url split_path match_basename is_tail digits_of after_digits
    is_suffix all_alnum
segment_url-Sibling_example =
    segment_url-Sibling none segment pattern_7 20 12 refl (omega arith) (omega arith) (omega arith)

abbrev tunables : Tunables
tunables = record {
  min_bytes = none;
  min_observations = none;
  max_index_gap = none;
  observation_ttl_ms = none;
  synth_count = some 20;
  min_digits = none;
}

abbrev env : Env
env = record {
  enabled = true;
  prefetch_enabled = true;
  has_real_playlist = false;
  is_embed_host = false;
  takes_ladder = true;
}

-- Two segments were observed before.
abbrev trackers : Trackers
trackers =
    (
      4,
      record {
        pattern = pattern_7;
        seen = (5, 1_000) ∷ (6, 5_000) ∷ [];
        adopted = false;
        ladder = [];
      },
    )
    ∷ []
