-- ===== src/Prelude/Sorting.antt =====
-- Sorting numbers, and the ranks of the elements of a sorted list.
use Prim.Native.Nat.{ℕ, zero, suc, ◌≤◌, ◌<◌}
use mathlib.Core.Path.{◌≡◌, refl, subst}
use mathlib.Core.Logic.{inl, inr}
use mathlib.Core.Bool.{Bool}
use mathlib.Core.List.{List, [], ◌∷◌}
use mathlib.Core.Option.{some}
use native.Mathlib.Omega.{arith}
use aegis_stream.Prelude.Tests.{ltb, leb, leb→le, Bool-cases, if◌then◌else◌}
use aegis_stream.Prelude.Lists.{length, get_elem?, retain, All}

abbrev pub insert : ℕ → List ℕ → List ℕ
insert x [] = x ∷ []
insert x (y ∷ ys) = let rest = insert x ys in if leb x y then x ∷ y ∷ ys else y ∷ rest

-- `[...xs].sort((a, b) => a - b)`
abbrev pub sort : List ℕ → List ℕ
sort [] = []
sort (x ∷ xs) = insert x (sort xs)

-- How many elements a test accepts.
abbrev pub tally : (ℕ → Bool) → List ℕ → ℕ
tally test xs = length (retain test xs)

abbrev pub AtLeast : ℕ → List ℕ → Type 0
AtLeast x = All λ y. x ≤ y

abbrev pub Sorted : List ℕ → Type 0
Sorted [] = Unit
Sorted (x ∷ xs) = AtLeast x xs × Sorted xs

insert-AtLeast : (b x : ℕ) (xs : List ℕ) → b ≤ x → AtLeast b xs → AtLeast b (insert x xs)
insert-AtLeast b x [] h hs = (h, tt)
insert-AtLeast b x (y ∷ ys) h hs = ground (arith, insert-AtLeast b x ys h hs.1, h, hs)

AtLeast-weaken : (a b : ℕ) (xs : List ℕ) → a ≤ b → AtLeast b xs → AtLeast a xs
AtLeast-weaken a b [] h hs = tt
AtLeast-weaken a b (y ∷ ys) h hs = (omega (arith, hs.0, h), AtLeast-weaken a b ys h hs.1)

insert-Sorted : (x : ℕ) (xs : List ℕ) → Sorted xs → Sorted (insert x xs)
insert-Sorted x [] h = (tt, tt)
insert-Sorted x (y ∷ ys) h = elim (Bool-cases (leb x y)) [
  | inl p ↦ let small = leb→le x y p in rw p ((small, AtLeast-weaken x y ys small h.0), h)
  | inr p ↦ rw p (insert-AtLeast y x ys (ground (arith, p)) h.0, insert-Sorted x ys h.1)
]

pub sort-Sorted : (xs : List ℕ) → Sorted (sort xs)
sort-Sorted [] = tt
sort-Sorted (x ∷ xs) = insert-Sorted x (sort xs) (sort-Sorted xs)

tally-insert :
    (test : ℕ → Bool) (x : ℕ) (xs : List ℕ) → tally test (insert x xs) ≡ tally test (x ∷ xs)
tally-insert test x [] = refl
tally-insert test x (y ∷ ys) = ground (arith, tally-insert test x ys)

pub tally-sort : (test : ℕ → Bool) (xs : List ℕ) → tally test (sort xs) ≡ tally test xs
tally-sort test [] = refl
tally-sort test (x ∷ xs) = ground (arith, tally-insert test x (sort xs), tally-sort test xs)

pub length-insert : (x : ℕ) (xs : List ℕ) → length (insert x xs) ≡ suc (length xs)
length-insert x [] = refl
length-insert x (y ∷ ys) = ground (arith, length-insert x ys)

pub length-sort : (xs : List ℕ) → length (sort xs) ≡ length xs
length-sort [] = refl
length-sort (x ∷ xs) = omega (arith, length-insert x (sort xs), length-sort xs)

get-AtLeast : (x : ℕ) (xs : List ℕ) (i : ℕ) {v : ℕ} → AtLeast x xs → get_elem? xs i ≡ some v → x ≤ v
get-AtLeast x [] i h found = absurd (ground (arith, found))
get-AtLeast x (y ∷ ys) zero h found = ground (arith, h.0, found)
get-AtLeast x (y ∷ ys) (suc i) {v} h found = get-AtLeast x ys i {v = v} h.1 found

tally-AtLeast : (v : ℕ) (xs : List ℕ) → AtLeast v xs → tally (λ y. ltb y v) xs ≡ 0
tally-AtLeast v [] h = refl
tally-AtLeast v (y ∷ ys) h = ground (arith, tally-AtLeast v ys h.1, h.0)

-- The element at index `i` of a sorted list has at most `i` smaller ones, and more than `i` that
-- are not larger.
pub rank-Sorted :
    (xs : List ℕ) (i : ℕ) {v : ℕ}
    → Sorted xs
    → get_elem? xs i ≡ some v
    → (tally (λ y. ltb y v) xs ≤ i) × (i < tally (λ y. leb y v) xs)
rank-Sorted [] i h found = absurd (ground (arith, found))
rank-Sorted (x ∷ xs) zero {v} h found =
    let same : x ≡ v = ground (arith, found) in
    subst (λ w. (tally (λ y. ltb y w) (x ∷ xs) ≤ 0) × (0 < tally (λ y. leb y w) (x ∷ xs))) same
      (ground (arith, tally-AtLeast x xs h.0))
rank-Sorted (x ∷ xs) (suc i) {v} h found =
    ground (arith, rank-Sorted xs i {v = v} h.1 found, get-AtLeast x xs i {v = v} h.0 found)

pub get-within : (xs : List ℕ) (i : ℕ) → i < length xs → (v : ℕ) × (get_elem? xs i ≡ some v)
get-within [] i h = absurd (omega arith)
get-within (x ∷ xs) zero h = (x, refl)
get-within (x ∷ xs) (suc i) h = get-within xs i (omega arith)
