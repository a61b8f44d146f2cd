-- ===== src/Prelude/OrdSet.antt =====
-- JavaScript's `Set`: the list of its elements in insertion order.
use Prim.Native.Nat.{ℕ, zero, suc, ◌+◌, ◌≤◌}
use mathlib.Core.Path.{◌≡◌, refl}
use mathlib.Core.Logic.{ite}
use mathlib.Core.Bool.{Bool, true, false, ◌||◌}
use mathlib.Core.List.{List, [], ◌∷◌}
use native.Mathlib.Omega.{arith}
use aegis_stream.Prelude.Keys.{Eq}
use aegis_stream.Prelude.Tests.{if◌then◌else◌}
use aegis_stream.Prelude.Lists.{length, drop}

module _ {K : Type 0} ⦃e : Eq K⦄ where
  unfoldable pub has : K → List K → Bool
  has k [] = false
  has k (j ∷ s) = ite (e.dec j k) true (has k s)

  unfoldable pub add : K → List K → List K
  add k [] = k ∷ []
  add k (j ∷ s) = ite (e.dec j k) (j ∷ s) (j ∷ add k s)

  unfoldable pub delete : K → List K → List K
  delete k [] = []
  delete k (j ∷ s) = let rest = delete k s in ite (e.dec j k) rest (j ∷ rest)

  unfoldable pub add_all : List K → List K → List K
  add_all [] s = s
  add_all (k ∷ ks) s = add_all ks (add k s)

  unfoldable pub delete_all : List K → List K → List K
  delete_all [] s = s
  delete_all (k ∷ ks) s = delete_all ks (delete k s)

  -- No element stands twice, as in any `Set`.
  abbrev pub IsDistinct : List K → Type 0
  IsDistinct [] = Unit
  IsDistinct (k ∷ s) = (has k s ≡ false) × IsDistinct s

  pub has-add : (j k : K) (s : List K) → has j (add k s) ≡ ite (e.dec k j) true (has j s)
  unfolding has add
  has-add j k [] = ground arith
  has-add j k (i ∷ s) = ground (arith, has-add j k s)

  pub has-delete : (j k : K) (s : List K) → has j (delete k s) ≡ ite (e.dec k j) false (has j s)
  unfolding has delete
  has-delete j k [] = ground arith
  has-delete j k (i ∷ s) = ground (arith, has-delete j k s)

  pub add-IsDistinct : (k : K) (s : List K) → IsDistinct s → IsDistinct (add k s)
  unfolding has add
  add-IsDistinct k [] h = ground arith
  add-IsDistinct k (j ∷ s) h = ground (arith, add-IsDistinct k s h.1, has-add j k s)

  pub delete-IsDistinct : (k : K) (s : List K) → IsDistinct s → IsDistinct (delete k s)
  unfolding delete
  delete-IsDistinct k [] h = tt
  delete-IsDistinct k (j ∷ s) h = ground (arith, delete-IsDistinct k s h.1, has-delete j k s)

  pub length-add : (k : K) (s : List K) → length (add k s) ≤ length s + 1
  unfolding add
  length-add k [] = omega arith
  length-add k (j ∷ s) = ground (arith, length-add k s)

  pub length-delete : (k : K) (s : List K) → length (delete k s) ≤ length s
  unfolding delete
  length-delete k [] = omega arith
  length-delete k (j ∷ s) = ground (arith, length-delete k s)

  pub add_all-IsDistinct : (ks s : List K) → IsDistinct s → IsDistinct (add_all ks s)
  unfolding add_all
  add_all-IsDistinct [] s h = h
  add_all-IsDistinct (k ∷ ks) s h = add_all-IsDistinct ks (add k s) (add-IsDistinct k s h)

  pub delete_all-IsDistinct : (ks s : List K) → IsDistinct s → IsDistinct (delete_all ks s)
  unfolding delete_all
  delete_all-IsDistinct [] s h = h
  delete_all-IsDistinct (k ∷ ks) s h =
      delete_all-IsDistinct ks (delete k s) (delete-IsDistinct k s h)

  pub length-add_all : (ks s : List K) → length (add_all ks s) ≤ length s + length ks
  unfolding add_all
  length-add_all [] s = omega arith
  length-add_all (k ∷ ks) s = omega (arith, length-add_all ks (add k s), length-add k s)

  pub length-delete_all : (ks s : List K) → length (delete_all ks s) ≤ length s
  unfolding delete_all
  length-delete_all [] s = omega arith
  length-delete_all (k ∷ ks) s = omega (arith, length-delete_all ks (delete k s), length-delete k s)

  pub has-add_all : (j : K) (ks s : List K) → has j (add_all ks s) ≡ (has j s || has j ks)
  unfolding add_all has
  has-add_all j [] s = ground arith
  has-add_all j (k ∷ ks) s = ground (arith, has-add_all j ks (add k s), has-add j k s)

  pub has-delete_all :
      (j : K) (ks s : List K) → has j (delete_all ks s) ≡ (if has j ks then false else has j s)
  unfolding delete_all has
  has-delete_all j [] s = refl
  has-delete_all j (k ∷ ks) s = ground (arith, has-delete_all j ks (delete k s), has-delete j k s)

  pub drop-IsDistinct : (n : ℕ) (s : List K) → IsDistinct s → IsDistinct (drop n s)
  drop-IsDistinct zero s h = h
  drop-IsDistinct (suc n) [] h = h
  drop-IsDistinct (suc n) (k ∷ s) h = drop-IsDistinct n s h.1
