-- ===== src/Sequence/Pattern/Matches.antt =====
-- A match of the basename in src/background/media/segment-sequence.js, and the match of a sibling.
use aegis_stream.Prelude.{
  ℕ, ◌≡◌, refl, ap, sym, ◌∙◌, subst, inl, inr, true, false, some, [], ◌∷◌, ◌++◌, leb, length, arith,
  Bool-cases, Option-cases,
}
use aegis_stream.Sequence.Pattern.{
  Text, is_suffix, digits_of, after_digits, is_tail, Match, match_basename,
}
use aegis_stream.Sequence.Pattern.Alike.{
  AllDigits, Alike, is_tail-Alike, Alike-append, Alike-digits, digits_of-AllDigits,
  digits_then_rest, no_digits_after, digits_of-append,
}

-- The groups make up the basename: some text, at least two digits, and a suffix.
pub record Parts (base : Text) (m : Match) : Type 0 where
  pub whole : base ≡ m.prefix ++ (m.digits ++ m.suffix)
  pub digits : AllDigits m.digits
  pub many : leb 2 (length m.digits) ≡ true
  pub fits : is_suffix m.suffix ≡ true
  pub bare : digits_of m.suffix ≡ []

tail_parts :
    (cs : Text)
    → is_tail cs ≡ true
    → (leb 2 (length (digits_of cs)) ≡ true) × (is_suffix (after_digits cs) ≡ true)
unfolding is_tail
tail_parts cs h = ground (arith, h)

abbrev here : Text → Match
here cs = record { prefix = []; digits = digits_of cs; suffix = after_digits cs }

here-Parts : (cs : Text) → is_tail cs ≡ true → Parts cs (here cs)
here-Parts cs h =
    let (many, fits) = tail_parts cs h in
    record {
      whole = digits_then_rest cs;
      digits = digits_of-AllDigits cs;
      many = many;
      fits = fits;
      bare = no_digits_after cs;
    }

abbrev put_before : ℕ → Match → Match
put_before c m = record m { prefix = c ∷ m.prefix }

before-Parts : (c : ℕ) (cs : Text) (m : Match) → Parts cs m → Parts (c ∷ cs) (put_before c m)
before-Parts c cs m h = record {
  whole = ap (λ l. c ∷ l) h.whole;
  digits = h.digits;
  many = h.many;
  fits = h.fits;
  bare = h.bare;
}

-- The same match with another counter.
abbrev pub recounted : Match → Text → Text
recounted m ds = m.prefix ++ (ds ++ m.suffix)

tail_of :
    (ds s : Text)
    → AllDigits ds
    → digits_of s ≡ []
    → leb 2 (length ds) ≡ true
    → is_suffix s ≡ true
    → is_tail (ds ++ s) ≡ true
unfolding is_tail
tail_of ds s digits bare many fits =
    let (p, q) = digits_of-append ds s digits bare in rw (p, q, many, fits) refl

-- The match of the counter and the suffix alone.
match_here :
    (ds s : Text)
    → AllDigits ds
    → digits_of s ≡ []
    → leb 2 (length ds) ≡ true
    → is_suffix s ≡ true
    → match_basename (ds ++ s) ≡ some (record { prefix = []; digits = ds; suffix = s })
unfolding match_basename
match_here [] s digits bare many fits = absurd (ground (arith, many))
match_here (d ∷ ds) s digits bare many fits =
    let (p, q) = digits_of-append (d ∷ ds) s digits bare in
    rw (tail_of (d ∷ ds) s digits bare many fits, p, q) refl

pub record Rematch (base : Text) (m : Match) : Type 0 where
  pub parts : Parts base m
  pub again :
      (ds : Text)
      → AllDigits ds
      → length ds ≡ length m.digits
      → match_basename (recounted m ds) ≡ some (record m { digits = ds })

pub rematch : (base : Text) {m : Match} → match_basename base ≡ some m → Rematch base m
unfolding match_basename
rematch [] h = cc
rematch (c ∷ cs) {m} h = elim (Bool-cases (is_tail (c ∷ cs))) [
  | inl p ↦
      let same : here (c ∷ cs) ≡ m = ground (arith, h, p) in
      let parts = here-Parts (c ∷ cs) p in
      subst (Rematch (c ∷ cs)) same (record {
        parts = parts;
        again = λ ds digits len.
            match_here ds (after_digits (c ∷ cs)) digits parts.bare (rw len parts.many) parts.fits;
      })
  | inr p ↦ elim (Option-cases (match_basename cs)) [
    | inl q ↦ absurd (ground (arith, h, p, q))
    | inr (n, q) ↦
        let same : put_before c n ≡ m = ground (arith, h, p, q) in
        let later = rematch cs {m = n} q in
        subst (Rematch (c ∷ cs)) same (record {
          parts = before-Parts c cs n later.parts;
          again = λ ds digits len.
              let alike =
                Alike-append n.prefix (n.digits ++ n.suffix) (ds ++ n.suffix)
                  (Alike-digits n.digits ds n.suffix (sym len) later.parts.digits digits) in
              let fails : is_tail (c ∷ recounted n ds) ≡ false =
                sym (
                  is_tail-Alike (c ∷ cs) (c ∷ recounted n ds)
                    (inl refl, subst (λ l. Alike l (recounted n ds)) (sym later.parts.whole) alike))
                ∙ p in
              rw (fails, later.again ds digits len) refl;
        })
  ]
]
