-- ===== src/Sequence/Pattern/Siblings.antt =====
-- The URLs that src/background/media/segment-sequence.js makes of a pattern have that pattern.
use aegis_stream.Prelude.{
  ℕ, zero, suc, get_elem?, ◌+◌, ◌<◌, ◌≡◌, refl, ap, sym, ◌∙◌, false, Option, some, ◌++◌,
  append_assoc, ltb, leb, length, positive_or, arith,
}
use aegis_stream.Sequence.Pattern.{
  Text, Url, Match, match_basename, digit_value, unsafe_from, has_slash, split_path, Pattern,
  default_min_digits, pattern_of, parse_sequential_segment_url, counter, segment_url, urls_from,
  build_sequential_segment_urls,
}
use aegis_stream.Sequence.Pattern.Alike.{AllDigits}
use aegis_stream.Sequence.Pattern.Matches.{Parts, rematch, recounted}
use aegis_stream.Sequence.Pattern.Numbers.{pow10, counter-Counts}
use aegis_stream.Sequence.Pattern.Paths.{
  has_slash-append, has_slash-parts, has_slash-digits, Splits, split_path-Splits,
}
use aegis_stream.Sequence.Pattern.Parses.{
  dir_of, sibling, href, Parsed, parse-Parsed, Made, pattern_of-Made,
}

-- The URL at an index is written from the parts of its sibling, and they read as the pattern there.
pub record Sibling (min_digits : Option ℕ) (url : Url) (p : Pattern) (i : ℕ) : Type 0 where
  pub written : segment_url p i ≡ href (sibling url p i)
  pub reread :
      parse_sequential_segment_url min_digits (some (sibling url p i))
      ≡ some (record p { index = i })

regroup :
    (a b c d e f : Text) → (a ++ b) ++ (c ++ (d ++ (e ++ f))) ≡ a ++ ((b ++ (c ++ (d ++ e))) ++ f)
regroup a b c d e f = simp append_assoc

-- The groups of another counter make the same pattern at its index.
remade :
    (min_digits : Option ℕ) (url v : Url) (dir : Text) (m : Match) (p : Pattern) (i : ℕ) (ds : Text)
    → Made min_digits url dir m p
    → v.origin ≡ url.origin
    → v.search ≡ url.search
    → length ds ≡ p.width
    → digit_value 0 ds ≡ i
    → i < unsafe_from
    → pattern_of min_digits v dir (record m { digits = ds }) ≡ some (record p { index = i })
remade min_digits url v dir m p i ds h o s wide value safe =
    let long : ltb (length ds) (positive_or default_min_digits min_digits) ≡ false =
      ground (arith, h.enough, h.same_width, wide) in
    let small : leb unsafe_from (digit_value 0 ds) ≡ false = ground (arith, value, safe) in
    rw (long, small)
      (ground (
        arith,
        h.same_dir,
        h.same_prefix,
        h.same_width,
        h.same_suffix,
        h.same_search,
        o,
        s,
        wide,
        value,
        ap (λ x. x ++ dir) o,
      ))

parse_parts :
    (min_digits : Option ℕ) (v : Url) (dir base : Text) (m : Match)
    → split_path v.pathname ≡ some (dir, base)
    → match_basename base ≡ some m
    → parse_sequential_segment_url min_digits (some v) ≡ pattern_of min_digits v dir m
unfolding parse_sequential_segment_url
parse_parts min_digits v dir base m split matched =
    rw (split, matched, parse_sequential_segment_url) refl

-- What the sibling of a URL is made of.
record SiblingParts (url v : Url) (p : Pattern) (dir : Text) (i : ℕ) : Type 0 where
  origin : v.origin ≡ url.origin
  path : v.pathname ≡ dir ++ (p.prefix ++ (counter p.width i ++ p.suffix))
  search : v.search ≡ url.search

sibling_parts :
    (url : Url) (p : Pattern) (dir base : Text) (i : ℕ)
    → split_path url.pathname ≡ some (dir, base)
    → SiblingParts url (sibling url p i) p dir i
unfolding sibling
sibling_parts url p dir base i split = record {
  origin = refl;
  path = ap (λ o. dir_of o ++ (p.prefix ++ (counter p.width i ++ p.suffix))) split;
  search = refl;
}

written_as :
    (min_digits : Option ℕ) (url v : Url) (p : Pattern) (dir : Text) (m : Match) (i : ℕ)
    → Made min_digits url dir m p
    → SiblingParts url v p dir i
    → segment_url p i ≡ href v
unfolding segment_url
written_as min_digits url v p dir m i made parts =
    let ds = counter p.width i in
    rw (parts.origin, parts.path, parts.search)
      (ap (λ x. x ++ (p.prefix ++ (ds ++ (p.suffix ++ p.search)))) made.same_dir
        ∙ regroup url.origin dir p.prefix ds p.suffix p.search
        ∙ ap (λ x. url.origin ++ ((dir ++ (p.prefix ++ (ds ++ p.suffix))) ++ x)) made.same_search)

-- The basename with another counter has no slash.
recounted_plain :
    (base dir ds : Text) (m : Match)
    → Parts base m
    → Splits dir base
    → AllDigits ds
    → has_slash (recounted m ds) ≡ false
recounted_plain base dir ds m parts splits digits =
    let groups =
      has_slash-parts m.prefix (m.digits ++ m.suffix)
        (ap has_slash (sym parts.whole) ∙ splits.plain) in
    has_slash-append m.prefix (ds ++ m.suffix) groups.0 (
      has_slash-append ds m.suffix (has_slash-digits ds digits)
        (has_slash-parts m.digits m.suffix groups.1).1)

Sibling-of :
    (min_digits : Option ℕ) (url : Url) (p : Pattern) (i : ℕ)
    → Parsed min_digits url p
    → i < pow10 p.width
    → i < unsafe_from
    → Sibling min_digits url p i
Sibling-of min_digits url p i h small safe =
    let made = pattern_of-Made min_digits url h.dir h.found p h.made in
    let again = rematch h.base {m = h.found} h.matched in
    let ds = counter p.width i in
    let counts =
      counter-Counts p.width i (ground (arith, again.parts.many, made.same_width)) small in
    let splits = split_path-Splits url.pathname h.dir h.base h.split in
    let parts = sibling_parts url p h.dir h.base i h.split in
    let same_base : p.prefix ++ (ds ++ p.suffix) ≡ recounted h.found ds =
      rw (made.same_prefix, made.same_suffix) refl in
    record {
      written = written_as min_digits url (sibling url p i) p h.dir h.found i made parts;
      reread =
          parse_parts min_digits (sibling url p i) h.dir (recounted h.found ds)
            (record h.found { digits = ds })
            (ap split_path (parts.path ∙ ap (λ b. h.dir ++ b) same_base)
              ∙ splits.other (recounted h.found ds)
                  (recounted_plain h.base h.dir ds h.found again.parts splits counts.digits))
            (again.again ds counts.digits (counts.wide ∙ made.same_width))
          ∙ remade min_digits url (sibling url p i) h.dir h.found p i ds made parts.origin
              parts.search counts.wide counts.value safe;
    }

urls_from-get :
    (p : Pattern) (j n i : ℕ) → i < n → get_elem? (urls_from p j n) i ≡ some (segment_url p (j + i))
unfolding urls_from
urls_from-get p j zero i h = absurd (omega arith)
urls_from-get p j (suc n) zero h =
    let e : j ≡ j + 0 = omega arith in ap (λ k. some (segment_url p k)) e
urls_from-get p j (suc n) (suc i) h =
    let e : j + 1 + i ≡ j + suc i = omega arith in
    urls_from-get p (j + 1) n i (omega arith) ∙ ap (λ k. some (segment_url p k)) e

-- The ladder has the URL of each index at its place.
listed_at :
    (p : Pattern) (count i : ℕ)
    → i < count
    → get_elem? (build_sequential_segment_urls p count) i ≡ some (segment_url p i)
unfolding build_sequential_segment_urls
listed_at p count i h =
    let e : 0 + i ≡ i = omega arith in
    urls_from-get p 0 count i h ∙ ap (λ k. some (segment_url p k)) e

-- If a URL parses to a pattern, then for each index of the ladder that is a safe integer with no more
-- digits than the counter of the pattern: the URL at that index is made up of the same origin, search
-- and directory and a basename with the counter of the index, and these parts parse to the same
-- pattern, with that index.
pub segment_url-Sibling :
    (min_digits : Option ℕ) (url : Url) (p : Pattern) (count i : ℕ)
    → parse_sequential_segment_url min_digits (some url) ≡ some p
    → i < count
    → i < pow10 p.width
    → i < unsafe_from
    → (get_elem? (build_sequential_segment_urls p count) i ≡ some (segment_url p i))
      × Sibling min_digits url p i
segment_url-Sibling min_digits url p count i parsed listed small safe = (
  listed_at p count i listed,
  Sibling-of min_digits url p i (parse-Parsed min_digits url p parsed) small safe,
)
