-- ===== src/Sequence/Pattern/Paths.antt =====
-- Slashes and basenames of paths, as src/background/media/segment-sequence.js splits them.
use aegis_stream.Prelude.{
  ◌≡◌, refl, subst, inl, inr, false, none, some, [], ◌∷◌, ◌++◌, ◌==◌, arith, Bool-cases,
  Option-cases,
}
use aegis_stream.Sequence.Pattern.{Text, has_slash, split_path}
use aegis_stream.Sequence.Pattern.Alike.{AllDigits}

pub has_slash-append :
    (xs ys : Text) → (has_slash xs ≡ false) → (has_slash ys ≡ false) → has_slash (xs ++ ys) ≡ false
has_slash-append [] ys h k = k
has_slash-append (x ∷ xs) ys h k = ground (arith, has_slash-append xs ys, h, k)

pub has_slash-parts :
    (xs ys : Text) → has_slash (xs ++ ys) ≡ false → (has_slash xs ≡ false) × (has_slash ys ≡ false)
has_slash-parts [] ys h = (refl, h)
has_slash-parts (x ∷ xs) ys h = ground (arith, has_slash-parts xs ys, h)

pub has_slash-digits : (ds : Text) → AllDigits ds → has_slash ds ≡ false
has_slash-digits [] h = refl
has_slash-digits (d ∷ ds) h = ground (arith, h.0, has_slash-digits ds h.1)

pub split_path-none : (cs : Text) → has_slash cs ≡ false → split_path cs ≡ none
unfolding split_path
split_path-none [] h = refl
split_path-none (c ∷ cs) h = ground (arith, split_path-none cs, h)

pub split_path-none_slash : (cs : Text) → split_path cs ≡ none → has_slash cs ≡ false
unfolding split_path
split_path-none_slash [] h = refl
split_path-none_slash (c ∷ cs) h = elim (Option-cases (split_path cs)) [
  | inl p ↦ ground (arith, split_path-none_slash cs, h, p)
  | inr ((dir, base), p) ↦ absurd (ground (arith, h, p))
]

-- The basename has no slash, and another one without a slash takes its place.
pub record Splits (dir base : Text) : Type 0 where
  pub plain : has_slash base ≡ false
  pub other : (b : Text) → has_slash b ≡ false → split_path (dir ++ b) ≡ some (dir, b)

pub split_path-Splits :
    (path dir base : Text) → split_path path ≡ some (dir, base) → Splits dir base
unfolding split_path
split_path-Splits [] dir base h = cc
split_path-Splits (c ∷ cs) dir base h = elim (Option-cases (split_path cs)) [
  | inr ((d, b), p) ↦
      let same_dir : c ∷ d ≡ dir = ground (arith, h, p) in
      let same_base : b ≡ base = ground (arith, h, p) in
      let later = split_path-Splits cs d b p in
      subst (λ x. Splits x base) same_dir
        (subst (λ x. Splits (c ∷ d) x) same_base
          (record { plain = later.plain; other = λ x plain. rw (later.other x plain) refl }))
  | inl p ↦ elim (Bool-cases (c == b'/')) [
    | inr q ↦ absurd (ground (arith, h, p, q))
    | inl q ↦
        let same_dir : b'/' ∷ [] ≡ dir = ground (arith, h, p, q) in
        let same_base : cs ≡ base = ground (arith, h, p, q) in
        subst (λ x. Splits x base) same_dir
          (subst (λ x. Splits (b'/' ∷ []) x) same_base
            (record {
              plain = split_path-none_slash cs p;
              other = λ x plain. rw (split_path-none x plain) refl;
            }))
  ]
]
