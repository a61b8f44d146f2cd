-- ===== src/Sequence/Pattern/Numbers.antt =====
-- Counters of src/background/media/segment-sequence.js: what is printed is what is read.
use aegis_stream.Prelude.{
  ℕ, zero, suc, ◌+◌, ◌-◌, ◌*◌, ◌/◌, ◌%◌, ◌≤◌, ◌<◌, ◌≡◌, refl, ap, ◌∙◌, false, [], ◌∷◌, ◌++◌, ltb,
  length, length-append, arith, Bool-cases, inl, inr,
}
use aegis_stream.Sequence.Pattern.{Text, digit_value, zeros, counter}
use aegis_stream.Prelude.Texts.{print_number}
use aegis_stream.Sequence.Pattern.Alike.{AllDigits}

-- 10 ^ n
abbrev pub pow10 : ℕ → ℕ
pow10 zero = 1
pow10 (suc n) = 10 * pow10 n

digit_value-append :
    (acc : ℕ) (xs ys : Text) → digit_value acc (xs ++ ys) ≡ digit_value (digit_value acc xs) ys
digit_value-append acc [] ys = refl
digit_value-append acc (x ∷ xs) ys = digit_value-append (acc * 10 + (x - b'0')) xs ys

append-AllDigits : (xs ys : Text) → AllDigits xs → AllDigits ys → AllDigits (xs ++ ys)
append-AllDigits [] ys h k = k
append-AllDigits (x ∷ xs) ys h k = (h.0, append-AllDigits xs ys h.1 k)

digit_value-print : (fuel n : ℕ) → n < fuel → digit_value 0 (print_number fuel n) ≡ n
unfolding print_number
digit_value-print zero n h = absurd (omega arith)
digit_value-print (suc fuel) n h = elim (Bool-cases (ltb n 10)) [
  | inl p ↦ rw p (omega arith)
  | inr p ↦ rw p (
      digit_value-append 0 (print_number fuel (n / 10)) ((b'0' + n % 10) ∷ [])
      ∙ omega (arith, digit_value-print fuel (n / 10) (ground (arith, p, h))))
]

print-AllDigits : (fuel n : ℕ) → AllDigits (print_number fuel n)
unfolding print_number
print-AllDigits zero n = tt
print-AllDigits (suc fuel) n = elim (Bool-cases (ltb n 10)) [
  | inl p ↦ rw p (ground (arith, p), tt)
  | inr p ↦ rw p (
      append-AllDigits (print_number fuel (n / 10)) ((b'0' + n % 10) ∷ [])
        (print-AllDigits fuel (n / 10)) (ground arith, tt))
]

-- A number of several digits has one digit fewer before the last.
shorter :
    (n w : ℕ) (init : Text)
    → n < pow10 (suc w)
    → ltb n 10 ≡ false
    → ((v : ℕ) → n / 10 < pow10 (suc v) → length init ≤ suc v)
    → length (init ++ (b'0' + n % 10) ∷ []) ≤ suc w
shorter n zero init h p rest = absurd (ground (arith, h, p))
shorter n (suc w) init h p rest =
    omega (arith, length-append init ((b'0' + n % 10) ∷ []), rest w (omega (arith, h)))

length-print : (fuel n w : ℕ) → n < pow10 (suc w) → length (print_number fuel n) ≤ suc w
unfolding print_number
length-print zero n w h = omega arith
length-print (suc fuel) n w h = elim (Bool-cases (ltb n 10)) [
  | inl p ↦ rw p (omega arith)
  | inr p ↦
      rw p (shorter n w (print_number fuel (n / 10)) h p (λ v k. length-print fuel (n / 10) v k))
]

zeros-AllDigits : (n : ℕ) → AllDigits (zeros n)
unfolding zeros
zeros-AllDigits zero = tt
zeros-AllDigits (suc n) = (refl, zeros-AllDigits n)

length-zeros : (n : ℕ) → length (zeros n) ≡ n
unfolding zeros
length-zeros zero = refl
length-zeros (suc n) = ap suc (length-zeros n)

digit_value-zeros : (n : ℕ) → digit_value 0 (zeros n) ≡ 0
unfolding zeros
digit_value-zeros zero = refl
digit_value-zeros (suc n) = digit_value-zeros n

-- A counter that fits its width has that width, is made of digits, and reads as its number.
pub record Counts (width i : ℕ) : Type 0 where
  pub digits : AllDigits (counter width i)
  pub wide : length (counter width i) ≡ width
  pub value : digit_value 0 (counter width i) ≡ i

pub counter-Counts : (width i : ℕ) → 0 < width → i < pow10 width → Counts width i
unfolding counter
counter-Counts zero i pos h = absurd (omega arith)
counter-Counts (suc w) i pos h =
    let shown = print_number (i + 1) i in
    let pad = zeros (suc w - length shown) in
    record {
      digits =
          append-AllDigits pad shown (zeros-AllDigits (suc w - length shown))
            (print-AllDigits (i + 1) i);
      wide = omega (
        arith,
        length-append pad shown,
        length-zeros (suc w - length shown),
        length-print (i + 1) i w h,
      );
      value =
          digit_value-append 0 pad shown
          ∙ ap (λ acc. digit_value acc shown) (digit_value-zeros (suc w - length shown))
          ∙ digit_value-print (i + 1) i (omega arith);
    }
