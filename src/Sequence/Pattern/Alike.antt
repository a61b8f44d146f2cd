-- ===== src/Sequence/Pattern/Alike.antt =====
-- The regular expression of src/background/media/segment-sequence.js sees of a digit only that it is
-- one: it finds any other counter of that width at the same place.
use aegis_stream.Prelude.{
  ℕ, suc, ◌≡◌, refl, ap, sym, ◌∙◌, ◌⊎◌, inl, inr, true, [], ◌∷◌, ◌++◌, ◌==◌, length, arith,
  Bool-cases,
}
use aegis_stream.Sequence.Pattern.{
  Text, is_digit, is_alnum, all_alnum, is_suffix, digits_of, after_digits, is_tail,
}

abbrev pub AllDigits : Text → Type 0
AllDigits [] = Unit
AllDigits (d ∷ ds) = (is_digit d ≡ true) × AllDigits ds

abbrev pub AlikeCode : ℕ → ℕ → Type 0
AlikeCode c d = (c ≡ d) ⊎ ((is_digit c ≡ true) × (is_digit d ≡ true))

abbrev pub Alike : Text → Text → Type 0
Alike [] [] = Unit
Alike [] (d ∷ ds) = ⊥
Alike (c ∷ cs) [] = ⊥
Alike (c ∷ cs) (d ∷ ds) = AlikeCode c d × Alike cs ds

is_digit-alike : (c d : ℕ) → AlikeCode c d → is_digit c ≡ is_digit d
is_digit-alike c d (inl p) = ap is_digit p
is_digit-alike c d (inr (p, q)) = p ∙ sym q

is_alnum-alike : (c d : ℕ) → AlikeCode c d → is_alnum c ≡ is_alnum d
is_alnum-alike c d (inl p) = ap is_alnum p
is_alnum-alike c d (inr (p, q)) = ground (arith, p, q)

is_dot-alike : (c d : ℕ) → AlikeCode c d → (c == b'.') ≡ (d == b'.')
is_dot-alike c d (inl p) = ap (λ x. x == b'.') p
is_dot-alike c d (inr (p, q)) = ground (arith, p, q)

length-Alike : (xs ys : Text) → Alike xs ys → length xs ≡ length ys
length-Alike [] [] h = refl
length-Alike [] (d ∷ ds) h = absurd h
length-Alike (c ∷ cs) [] h = absurd h
length-Alike (c ∷ cs) (d ∷ ds) h = ap suc (length-Alike cs ds h.1)

all_alnum-Alike : (xs ys : Text) → Alike xs ys → all_alnum xs ≡ all_alnum ys
unfolding all_alnum
all_alnum-Alike [] [] h = refl
all_alnum-Alike [] (d ∷ ds) h = absurd h
all_alnum-Alike (c ∷ cs) [] h = absurd h
all_alnum-Alike (c ∷ cs) (d ∷ ds) h = rw (is_alnum-alike c d h.0, all_alnum-Alike cs ds h.1) refl

is_suffix-Alike : (xs ys : Text) → Alike xs ys → is_suffix xs ≡ is_suffix ys
unfolding is_suffix
is_suffix-Alike [] [] h = refl
is_suffix-Alike [] (d ∷ ds) h = absurd h
is_suffix-Alike (c ∷ cs) [] h = absurd h
is_suffix-Alike (c ∷ cs) (d ∷ ds) h =
    rw (is_dot-alike c d h.0, length-Alike cs ds h.1, all_alnum-Alike cs ds h.1) refl

digits_of-Alike : (xs ys : Text) → Alike xs ys → length (digits_of xs) ≡ length (digits_of ys)
unfolding digits_of
digits_of-Alike [] [] h = refl
digits_of-Alike [] (d ∷ ds) h = absurd h
digits_of-Alike (c ∷ cs) [] h = absurd h
digits_of-Alike (c ∷ cs) (d ∷ ds) h =
    ground (arith, is_digit-alike c d h.0, digits_of-Alike cs ds h.1)

after_digits-Alike : (xs ys : Text) → Alike xs ys → Alike (after_digits xs) (after_digits ys)
unfolding after_digits
after_digits-Alike [] [] h = tt
after_digits-Alike [] (d ∷ ds) h = absurd h
after_digits-Alike (c ∷ cs) [] h = absurd h
after_digits-Alike (c ∷ cs) (d ∷ ds) h = elim (Bool-cases (is_digit c)) [
  | inl p ↦ rw (p, sym (is_digit-alike c d h.0) ∙ p) (after_digits-Alike cs ds h.1)
  | inr p ↦ rw (p, sym (is_digit-alike c d h.0) ∙ p) h
]

pub is_tail-Alike : (xs ys : Text) → Alike xs ys → is_tail xs ≡ is_tail ys
unfolding is_tail
is_tail-Alike xs ys h =
    rw
      (
        digits_of-Alike xs ys h,
        is_suffix-Alike (after_digits xs) (after_digits ys) (after_digits-Alike xs ys h),
      )
      refl

pub Alike-self : (xs : Text) → Alike xs xs
Alike-self [] = tt
Alike-self (c ∷ cs) = (inl refl, Alike-self cs)

pub Alike-append : (p xs ys : Text) → Alike xs ys → Alike (p ++ xs) (p ++ ys)
Alike-append [] xs ys h = h
Alike-append (c ∷ p) xs ys h = (inl refl, Alike-append p xs ys h)

pub Alike-digits :
    (xs ys s : Text)
    → length xs ≡ length ys
    → AllDigits xs
    → AllDigits ys
    → Alike (xs ++ s) (ys ++ s)
Alike-digits [] [] s e h k = Alike-self s
Alike-digits [] (d ∷ ds) s e h k = absurd (omega (arith, e))
Alike-digits (c ∷ cs) [] s e h k = absurd (omega (arith, e))
Alike-digits (c ∷ cs) (d ∷ ds) s e h k =
    (inr (h.0, k.0), Alike-digits cs ds s (omega (arith, e)) h.1 k.1)

pub digits_of-AllDigits : (xs : Text) → AllDigits (digits_of xs)
unfolding digits_of
digits_of-AllDigits [] = tt
digits_of-AllDigits (c ∷ cs) = elim (Bool-cases (is_digit c)) [
  | inl p ↦ rw p (p, digits_of-AllDigits cs)
  | inr p ↦ rw p tt
]

pub digits_then_rest : (xs : Text) → xs ≡ digits_of xs ++ after_digits xs
unfolding digits_of after_digits
digits_then_rest [] = refl
digits_then_rest (c ∷ cs) = ground (arith, digits_then_rest cs)

pub no_digits_after : (xs : Text) → digits_of (after_digits xs) ≡ []
unfolding digits_of after_digits
no_digits_after [] = refl
no_digits_after (c ∷ cs) = ground (arith, no_digits_after cs)

after_none : (s : Text) → digits_of s ≡ [] → after_digits s ≡ s
unfolding digits_of after_digits
after_none [] h = refl
after_none (c ∷ cs) h = ground (arith, h)

pub digits_of-append :
    (ds s : Text)
    → AllDigits ds
    → digits_of s ≡ []
    → (digits_of (ds ++ s) ≡ ds) × (after_digits (ds ++ s) ≡ s)
unfolding digits_of after_digits
digits_of-append [] s h none_left = (none_left, after_none s none_left)
digits_of-append (d ∷ ds) s h none_left =
    let (p, q) = digits_of-append ds s h.1 none_left in rw h.0 (ap (λ l. d ∷ l) p, q)
