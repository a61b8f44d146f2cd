-- ===== src/Sequence/Pattern.antt =====
-- How src/background/media/segment-sequence.js reads the counter of a URL, and writes one.
pub mod Alike
pub mod Matches
pub mod Numbers
pub mod Paths
pub mod Parses
pub mod Siblings
use aegis_stream.Prelude.Texts.{print_number}
use aegis_stream.Prelude.{
  ℕ, zero, suc, ◌+◌, ◌-◌, ◌*◌, ◌/◌, ◌%◌, Bool, true, false, ◌&&◌, ◌||◌, Option, none, some, List,
  [], ◌∷◌, ◌++◌, ltb, leb, ◌==◌, if◌then◌else◌, length, positive_or,
}

abbrev pub Text : Type 0
Text = List ℕ

-- The parts of a parsed URL that the code reads.
pub record Url : Type 0 where
  pub origin : Text
  pub pathname : Text
  pub search : Text

abbrev pub is_digit : ℕ → Bool
is_digit c = leb b'0' c && leb c b'9'

abbrev pub is_letter : ℕ → Bool
is_letter c = (leb b'A' c && leb c b'Z') || (leb b'a' c && leb c b'z')

-- `[A-Za-z0-9]`
abbrev pub is_alnum : ℕ → Bool
is_alnum c = is_digit c || is_letter c

unfoldable pub all_alnum : Text → Bool
all_alnum [] = true
all_alnum (c ∷ cs) = is_alnum c && all_alnum cs

-- `(\.[A-Za-z0-9]{1,5})?$`
unfoldable pub is_suffix : Text → Bool
unfolding all_alnum
is_suffix [] = true
is_suffix (c ∷ cs) = c == b'.' && (leb 1 (length cs) && leb (length cs) 5) && all_alnum cs

-- `\d*`, which takes as many digits as there are.
unfoldable pub digits_of : Text → Text
digits_of [] = []
digits_of (c ∷ cs) = let rest = digits_of cs in if is_digit c then c ∷ rest else []

unfoldable pub after_digits : Text → Text
after_digits [] = []
after_digits (c ∷ cs) = let rest = after_digits cs in if is_digit c then rest else c ∷ cs

-- `^(\d{2,})(\.[A-Za-z0-9]{1,5})?$`: a suffix begins with no digit, so that the digits are all those
-- there are.
unfoldable pub is_tail : Text → Bool
unfolding digits_of after_digits is_suffix
is_tail cs = leb 2 (length (digits_of cs)) && is_suffix (after_digits cs)

pub record Match : Type 0 where
  pub prefix : Text
  pub digits : Text
  pub suffix : Text

-- `SEGMENT_BASENAME_RE.exec(basename)`: the first group is the shortest that fits.
unfoldable pub match_basename : Text → Option Match
unfolding is_tail digits_of after_digits
match_basename [] = none
match_basename (c ∷ cs) =
    let later = match_basename cs in
    if is_tail (c ∷ cs)
    then some (record { prefix = []; digits = digits_of (c ∷ cs); suffix = after_digits (c ∷ cs) })
    else elim later [ none ↦ none | some m ↦ some (record m { prefix = c ∷ m.prefix }) ]

-- `Number(digits)`, with the value of the digits before.
abbrev pub digit_value : ℕ → Text → ℕ
digit_value acc [] = acc
digit_value acc (d ∷ ds) = digit_value (acc * 10 + (d - b'0')) ds

-- 2^53: the largest safe integer is one less. A larger value may be rounded, but not to a safe one.
abbrev pub unsafe_from : ℕ
unsafe_from = 9_007_199_254_740_992

abbrev pub has_slash : Text → Bool
has_slash [] = false
has_slash (c ∷ cs) = c == b'/' || has_slash cs

-- The path up to its last slash, with it, and what follows.
unfoldable pub split_path : Text → Option (Text × Text)
split_path [] = none
split_path (c ∷ cs) = elim (split_path cs) [
  | some (dir, base) ↦ some (c ∷ dir, base)
  | none ↦ if c == b'/' then some (b'/' ∷ [], cs) else none
]

pub record Pattern : Type 0 where
  pub dir : Text
  pub prefix : Text
  pub width : ℕ
  pub suffix : Text
  pub search : Text
  pub index : ℕ

abbrev pub default_min_digits : ℕ
default_min_digits = 2

-- What of the match and the rest of the URL makes the pattern.
abbrev pub pattern_of : Option ℕ → Url → Text → Match → Option Pattern
pattern_of min_digits url dir m =
    if ltb (length m.digits) (positive_or default_min_digits min_digits)
    then none
    else if leb unsafe_from (digit_value 0 m.digits)
    then none
    else some (record {
      dir = url.origin ++ dir;
      prefix = m.prefix;
      width = length m.digits;
      suffix = m.suffix;
      search = url.search;
      index = digit_value 0 m.digits;
    })

-- `parseSequentialSegmentUrl`, of what `new URL` gave. The key of the pattern is the pattern without
-- its index.
unfoldable pub parse_sequential_segment_url : Option ℕ → Option Url → Option Pattern
unfolding split_path match_basename
parse_sequential_segment_url min_digits none = none
parse_sequential_segment_url min_digits (some url) = elim (split_path url.pathname) [
  | none ↦ none
  | some (dir, base) ↦ elim (match_basename base) [
    | none ↦ none
    | some m ↦ pattern_of min_digits url dir m
  ]
]

unfoldable pub zeros : ℕ → Text
zeros zero = []
zeros (suc n) = b'0' ∷ zeros n

-- `String(i).padStart(width, "0")`
unfoldable pub counter : ℕ → ℕ → Text
unfolding print_number zeros
counter width i = let shown = print_number (i + 1) i in zeros (width - length shown) ++ shown

-- The URL at an index, and the ladder of them.
unfoldable pub segment_url : Pattern → ℕ → Text
unfolding counter
segment_url p i = p.dir ++ (p.prefix ++ (counter p.width i ++ (p.suffix ++ p.search)))

urls_from : Pattern → ℕ → ℕ → List Text
unfolding segment_url
urls_from p i zero = []
urls_from p i (suc n) = segment_url p i ∷ urls_from p (i + 1) n

unfoldable pub build_sequential_segment_urls : Pattern → ℕ → List Text
unfolding urls_from
build_sequential_segment_urls p count = urls_from p 0 count
