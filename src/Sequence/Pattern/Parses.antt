-- ===== src/Sequence/Pattern/Parses.antt =====
-- What src/background/media/segment-sequence.js reads of a URL that it parses.
use aegis_stream.Prelude.{
  ℕ, ◌≡◌, inl, inr, false, Option, none, some, [], ◌++◌, ltb, leb, length, positive_or, arith,
  Bool-cases, Option-cases,
}
use aegis_stream.Sequence.Pattern.{
  Text, Url, Match, match_basename, digit_value, unsafe_from, split_path, Pattern,
  default_min_digits, pattern_of, parse_sequential_segment_url, counter,
}

abbrev pub dir_of : Option (Text × Text) → Text
dir_of none = []
dir_of (some (dir, base)) = dir

-- The parts of the URL at an index of the pattern, in place of the URL that the pattern is from.
unfoldable pub sibling : Url → Pattern → ℕ → Url
sibling url p i = record url {
  pathname = dir_of (split_path url.pathname) ++ (p.prefix ++ (counter p.width i ++ p.suffix));
}

abbrev pub href : Url → Text
href url = url.origin ++ (url.pathname ++ url.search)

-- What a parse tells of the URL.
pub record Parsed (min_digits : Option ℕ) (url : Url) (p : Pattern) : Type 0 where
  pub dir : Text
  pub base : Text
  pub found : Match
  pub split : split_path url.pathname ≡ some (dir, base)
  pub matched : match_basename base ≡ some found
  pub made : pattern_of min_digits url dir found ≡ some p

pub parse-Parsed :
    (min_digits : Option ℕ) (url : Url) (p : Pattern)
    → parse_sequential_segment_url min_digits (some url) ≡ some p
    → Parsed min_digits url p
unfolding parse_sequential_segment_url
parse-Parsed min_digits url p h = elim (Option-cases (split_path url.pathname)) [
  | inl q ↦ absurd (ground (arith, h, q))
  | inr ((dir, base), q) ↦ elim (Option-cases (match_basename base)) [
    | inl r ↦ absurd (ground (arith, h, q, r))
    | inr (m, r) ↦ record {
      dir = dir;
      base = base;
      found = m;
      split = q;
      matched = r;
      made = ground (arith, h, q, r);
    }
  ]
]

-- The fields of the pattern that a match makes.
pub record Made (min_digits : Option ℕ) (url : Url) (dir : Text) (m : Match) (p : Pattern)
    : Type 0 where
  pub enough : ltb (length m.digits) (positive_or default_min_digits min_digits) ≡ false
  pub same_dir : p.dir ≡ url.origin ++ dir
  pub same_prefix : p.prefix ≡ m.prefix
  pub same_width : p.width ≡ length m.digits
  pub same_suffix : p.suffix ≡ m.suffix
  pub same_search : p.search ≡ url.search

pub pattern_of-Made :
    (min_digits : Option ℕ) (url : Url) (dir : Text) (m : Match) (p : Pattern)
    → pattern_of min_digits url dir m ≡ some p
    → Made min_digits url dir m p
pattern_of-Made min_digits url dir m p h =
    elim (Bool-cases (ltb (length m.digits) (positive_or default_min_digits min_digits))) [
      | inl short ↦ absurd (ground (arith, h, short))
      | inr long ↦ elim (Bool-cases (leb unsafe_from (digit_value 0 m.digits))) [
        | inl big ↦ absurd (ground (arith, h, long, big))
        | inr safe ↦ record {
          enough = long;
          same_dir = ground (arith, h, long, safe);
          same_prefix = ground (arith, h, long, safe);
          same_width = ground (arith, h, long, safe);
          same_suffix = ground (arith, h, long, safe);
          same_search = ground (arith, h, long, safe);
        }
      ]
    ]
