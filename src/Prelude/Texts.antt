-- ===== src/Prelude/Texts.antt =====
-- What the code asks of texts, on their code points: lower case, trimming, prefixes and parts.
-- Lower case and white space are those of ASCII, in which the labels of the program are written.
use Prim.Native.Nat.{ℕ, zero, suc, ◌+◌, ◌/◌, ◌%◌}
use Prim.Native.String.{String}
use Prim.Native.Char.{code}
use mathlib.Core.Bool.{Bool, true, false, ◌&&◌, ◌||◌}
use mathlib.Core.List.{List, [], ◌∷◌, ◌++◌, map, reverse}
use aegis_stream.Prelude.Tests.{ltb, leb, ◌==◌, if◌then◌else◌}

abbrev pub codes : String → List ℕ
codes String.[] = []
codes (String.◌∷◌ c s) = code c ∷ codes s

abbrev pub lower_code : ℕ → ℕ
lower_code c = if leb b'A' c && leb c b'Z' then c + 32 else c

-- `String.prototype.toLowerCase`
abbrev pub to_lower : List ℕ → List ℕ
to_lower = map lower_code

abbrev pub is_space : ℕ → Bool
is_space c = c == 32 || leb 9 c && leb c 13

abbrev pub trim_start : List ℕ → List ℕ
trim_start [] = []
trim_start (c ∷ cs) = let rest = trim_start cs in if is_space c then rest else c ∷ cs

-- `String.prototype.trim`
abbrev pub trim : List ℕ → List ℕ
trim cs = reverse (trim_start (reverse (trim_start cs)))

-- `String.prototype.startsWith`
abbrev pub starts_with : List ℕ → List ℕ → Bool
starts_with cs [] = true
starts_with [] (p ∷ ps) = false
starts_with (c ∷ cs) (p ∷ ps) = c == p && starts_with cs ps

-- `String.prototype.includes`, and a regular expression that is a plain word.
abbrev pub includes : List ℕ → List ℕ → Bool
includes [] part = starts_with [] part
includes (c ∷ cs) part = starts_with (c ∷ cs) part || includes cs part

abbrev pub drop_prefix : List ℕ → List ℕ → List ℕ
drop_prefix cs [] = cs
drop_prefix [] (p ∷ ps) = []
drop_prefix (c ∷ cs) (p ∷ ps) = drop_prefix cs ps

-- `s.replace(/^prefix/, "")`
abbrev pub strip_prefix : List ℕ → List ℕ → List ℕ
strip_prefix cs prefix = if starts_with cs prefix then drop_prefix cs prefix else cs

abbrev pub same_text : List ℕ → List ℕ → Bool
same_text [] [] = true
same_text [] (b ∷ bs) = false
same_text (a ∷ as_) [] = false
same_text (a ∷ as_) (b ∷ bs) = a == b && same_text as_ bs

-- `Set.prototype.has` on a set of labels.
abbrev pub any_same : List ℕ → List String → Bool
any_same cs [] = false
any_same cs (label ∷ labels) = same_text cs (codes label) || any_same cs labels

-- `/a|b|c/.test(s)`, for words.
abbrev pub includes_any : List ℕ → List String → Bool
includes_any cs [] = false
includes_any cs (word ∷ words) = includes cs (codes word) || includes_any cs words

-- `String(i)`, with fuel for its digits: one more than `i` is enough.
unfoldable pub print_number : ℕ → ℕ → List ℕ
print_number zero n = []
print_number (suc fuel) n =
    let rest = print_number fuel (n / 10) in
    if ltb n 10 then (b'0' + n) ∷ [] else rest ++ (b'0' + n % 10) ∷ []
