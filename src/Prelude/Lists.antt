-- ===== src/Prelude/Lists.antt =====
-- Lists measured and counted by native numbers, a filter by a Boolean test, and a predicate on all
-- the elements.
use Prim.Native.Nat.{ℕ, zero, suc, ◌+◌, ◌-◌, ◌≤◌}
use mathlib.Core.Path.{◌≡◌, refl}
use mathlib.Core.Logic.{ite}
use mathlib.Core.Bool.{Bool}
use mathlib.Core.List.{List, [], ◌∷◌, ◌++◌}
use mathlib.Core.Option.{Option, none, some}
use native.Mathlib.Omega.{arith}
use aegis_stream.Prelude.Tests.{if◌then◌else◌}

module _ {ℓ} {A : Type ℓ} where
  abbrev pub length : List A → ℕ
  length [] = 0
  length (x ∷ xs) = suc (length xs)

  abbrev pub get_elem? : List A → ℕ → Option A
  get_elem? [] i = none
  get_elem? (x ∷ xs) zero = some x
  get_elem? (x ∷ xs) (suc i) = get_elem? xs i

  abbrev pub take : ℕ → List A → List A
  take zero xs = []
  take (suc n) [] = []
  take (suc n) (x ∷ xs) = x ∷ take n xs

  abbrev pub drop : ℕ → List A → List A
  drop zero xs = xs
  drop (suc n) [] = []
  drop (suc n) (x ∷ xs) = drop n xs

  abbrev pub All {κ} : (A → Type κ) → List A → Type κ
  All P [] = Unit
  All P (x ∷ xs) = P x × All P xs

  -- `Array.prototype.filter` by a Boolean test.
  abbrev pub retain : (A → Bool) → List A → List A
  retain test [] = []
  retain test (x ∷ xs) = let rest = retain test xs in if test x then x ∷ rest else rest

  pub length-append : (xs ys : List A) → length (xs ++ ys) ≡ length xs + length ys
  length-append [] ys = omega arith
  length-append (x ∷ xs) ys = omega (arith, length-append xs ys)

  pub length-retain-le : (test : A → Bool) (xs : List A) → length (retain test xs) ≤ length xs
  length-retain-le test [] = omega arith
  length-retain-le test (x ∷ xs) = ground (arith, length-retain-le test xs)

  pub retain-append :
      (test : A → Bool) (xs ys : List A) → retain test (xs ++ ys) ≡ retain test xs ++ retain test ys
  retain-append test [] ys = refl
  retain-append test (x ∷ xs) ys = ground (arith, retain-append test xs ys)

  pub length-drop : (n : ℕ) (xs : List A) → length (drop n xs) ≡ length xs - n
  length-drop zero xs = omega arith
  length-drop (suc n) [] = omega arith
  length-drop (suc n) (x ∷ xs) = omega (arith, length-drop n xs)

  pub length-drop_excess : (n : ℕ) (xs : List A) → length (drop (length xs - n) xs) ≤ n
  length-drop_excess n xs = omega (arith, length-drop (length xs - n) xs)

  pub drop-nil : (n : ℕ) → drop n [] ≡ []
  drop-nil zero = refl
  drop-nil (suc n) = refl

  pub drop-tail : (n : ℕ) (xs : List A) → drop n (drop 1 xs) ≡ drop (suc n) xs
  drop-tail n [] = drop-nil n
  drop-tail n (x ∷ xs) = refl

  pub drop-All {κ} : (P : A → Type κ) (n : ℕ) (xs : List A) → All P xs → All P (drop n xs)
  drop-All P zero xs h = h
  drop-All P (suc n) [] h = tt
  drop-All P (suc n) (x ∷ xs) h = drop-All P n xs h.1

  pub All-append {κ} : (P : A → Type κ) (xs ys : List A) → All P xs → All P ys → All P (xs ++ ys)
  All-append P [] ys hx hy = hy
  All-append P (x ∷ xs) ys hx hy = (hx.0, All-append P xs ys hx.1 hy)

abbrev pub count {ℓ} : {A : Type ℓ} → Discrete A → A → List A → ℕ
count dec a [] = 0
count dec a (x ∷ xs) = let rest = count dec a xs in ite (dec x a) (suc rest) rest

pub count-append {ℓ} :
    {A : Type ℓ} (dec : Discrete A) (a : A) (xs ys : List A)
    → count dec a (xs ++ ys) ≡ count dec a xs + count dec a ys
count-append dec a [] ys = omega arith
count-append dec a (x ∷ xs) ys = ground (arith, count-append dec a xs ys)
