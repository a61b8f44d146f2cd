-- ===== src/Prelude/OrdMap.antt =====
-- JavaScript's `Map`: an association list in insertion order. `set` on a key that is present
-- replaces the value in its place; on a new key it appends.
use Prim.Native.Nat.{ℕ, zero, suc, ◌+◌, ◌≤◌}
use mathlib.Core.Path.{◌≡◌, refl, subst}
use mathlib.Core.Logic.{ite, if_pos, if_neg}
use mathlib.Core.Bool.{Bool}
use mathlib.Core.List.{List, [], ◌∷◌, ◌++◌}
use mathlib.Core.Option.{Option, none, some}
use native.Mathlib.Omega.{arith}
use aegis_stream.Prelude.Keys.{Eq}
use aegis_stream.Prelude.Tests.{is_some, if◌then◌else◌}
use aegis_stream.Prelude.Lists.{length, All, retain, take, drop}

abbrev pub OrdMap {ℓ} : Type ℓ → Type ℓ → Type ℓ
OrdMap K V = List (K × V)

abbrev pub keys {ℓ} : {K V : Type ℓ} → OrdMap K V → List K
keys [] = []
keys ((k, v) ∷ m) = k ∷ keys m

-- The sum of a measure over the values.
abbrev pub total {ℓ} : {K V : Type ℓ} → (V → ℕ) → OrdMap K V → ℕ
total f [] = 0
total f ((k, v) ∷ m) = f v + total f m

module _ {ℓ} {K V : Type ℓ} ⦃e : Eq K⦄ where
  unfoldable pub get : K → OrdMap K V → Option V
  get k [] = none
  get k ((j, v) ∷ m) = ite (e.dec j k) (some v) (get k m)

  abbrev pub has : K → OrdMap K V → Bool
  has k m = is_some (get k m)

  unfoldable pub set : K → V → OrdMap K V → OrdMap K V
  set k v [] = (k, v) ∷ []
  set k v ((j, w) ∷ m) = ite (e.dec j k) ((j, v) ∷ m) ((j, w) ∷ set k v m)

  unfoldable pub delete : K → OrdMap K V → OrdMap K V
  delete k [] = []
  delete k ((j, v) ∷ m) = let rest = delete k m in ite (e.dec j k) rest ((j, v) ∷ rest)

  -- No key stands twice, as in any `Map`.
  abbrev pub IsMap : OrdMap K V → Type ℓ
  IsMap [] = Unit
  IsMap ((k, v) ∷ m) = (get k m ≡ none) × IsMap m

  pub get-set :
      (j k : K) (v : V) (m : OrdMap K V) → get j (set k v m) ≡ ite (e.dec k j) (some v) (get j m)
  unfolding get set
  get-set j k v [] = refl
  get-set j k v ((i, w) ∷ m) = ground (arith, get-set j k v m)

  pub get-delete : (j k : K) (m : OrdMap K V) → get j (delete k m) ≡ ite (e.dec k j) none (get j m)
  unfolding get delete
  get-delete j k [] = ground arith
  get-delete j k ((i, w) ∷ m) = ground (arith, get-delete j k m)

  pub get-append :
      (j k : K) (v : V) (m : OrdMap K V)
      → get j (m ++ (k, v) ∷ [])
        ≡ elim (get j m) [ some w ↦ some w | none ↦ ite (e.dec k j) (some v) none ]
  unfolding get
  get-append j k v [] = refl
  get-append j k v ((i, w) ∷ m) = ground (arith, get-append j k v m)

  pub delete_absent : (k : K) (m : OrdMap K V) → get k m ≡ none → delete k m ≡ m
  unfolding get delete
  delete_absent k [] h = refl
  delete_absent k ((j, v) ∷ m) h = ground (arith, delete_absent k m)

  pub set_absent : (k : K) (v : V) (m : OrdMap K V) → get k m ≡ none → set k v m ≡ m ++ (k, v) ∷ []
  unfolding get set
  set_absent k v [] h = refl
  set_absent k v ((j, w) ∷ m) h = ground (arith, set_absent k v m)

  pub set-IsMap : (k : K) (v : V) (m : OrdMap K V) → IsMap m → IsMap (set k v m)
  unfolding get set
  set-IsMap k v [] h = ground arith
  set-IsMap k v ((j, w) ∷ m) h = ground (arith, set-IsMap k v m h.1, get-set j k v m)

  pub delete-IsMap : (k : K) (m : OrdMap K V) → IsMap m → IsMap (delete k m)
  unfolding delete
  delete-IsMap k [] h = tt
  delete-IsMap k ((j, w) ∷ m) h = ground (arith, delete-IsMap k m h.1, get-delete j k m)

  pub total-delete :
      (f : V → ℕ) (k : K) (m : OrdMap K V) {v : V}
      → IsMap m
      → get k m ≡ some v
      → f v + total f (delete k m) ≡ total f m
  unfolding get delete
  total-delete f k [] h found = cc
  total-delete f k ((j, w) ∷ m) {v} h found =
      ground (arith, total-delete f k m {v = v} h.1, delete_absent k m)

  pub total-append :
      (f : V → ℕ) (k : K) (v : V) (m : OrdMap K V) → total f (m ++ (k, v) ∷ []) ≡ total f m + f v
  total-append f k v [] = omega arith
  total-append f k v (x ∷ m) = omega (arith, total-append f k v m)

  pub length-delete :
      (k : K) (m : OrdMap K V) {v : V}
      → IsMap m
      → get k m ≡ some v
      → length (delete k m) + 1 ≡ length m
  unfolding get delete
  length-delete k [] h found = cc
  length-delete k ((j, w) ∷ m) {v} h found =
      ground (arith, length-delete k m {v = v} h.1, delete_absent k m)

  pub length-delete-le : (k : K) (m : OrdMap K V) → length (delete k m) ≤ length m
  unfolding delete
  length-delete-le k [] = omega arith
  length-delete-le k ((j, w) ∷ m) = ground (arith, length-delete-le k m)

  pub delete-All {κ} : (P : K × V → Type κ) (k : K) (m : OrdMap K V) → All P m → All P (delete k m)
  unfolding delete
  delete-All P k [] h = tt
  delete-All P k ((j, v) ∷ m) h = elim (e.dec j k) [
    | yes p ↦ rw (if_pos _ p) (delete-All P k m h.1)
    | no p ↦ rw (if_neg _ p) (h.0, delete-All P k m h.1)
  ]

  pub set-All {κ} :
      (P : K × V → Type κ) (k : K) (v : V) (m : OrdMap K V)
      → ((j : K) → P (j, v))
      → All P m
      → All P (set k v m)
  unfolding set
  set-All P k v [] p h = (p k, tt)
  set-All P k v ((j, w) ∷ m) p h = elim (e.dec j k) [
    | yes q ↦ rw (if_pos _ q) (p j, h.1)
    | no q ↦ rw (if_neg _ q) (h.0, set-All P k v m p h.1)
  ]

  pub get-All {κ} :
      (P : V → Type κ) (k : K) (m : OrdMap K V) {v : V}
      → All (λ (j, w). P w) m
      → get k m ≡ some v
      → P v
  unfolding get
  get-All P k [] h found = absurd (ground (arith, found))
  get-All P k ((j, w) ∷ m) {v} h found = elim (e.dec j k) [
    | yes p ↦ let same : w ≡ v = ground (arith, found, p) in subst P same h.0
    | no p ↦
        let later : get k m ≡ some v = ground (arith, found, p) in get-All P k m {v = v} h.1 later
  ]

  pub delete-set_self : (k : K) (v : V) (m : OrdMap K V) → delete k (set k v m) ≡ delete k m
  unfolding delete set
  delete-set_self k v [] = ground arith
  delete-set_self k v ((j, w) ∷ m) = ground (arith, delete-set_self k v m)

  pub get-delete_self : (k : K) (m : OrdMap K V) → get k (delete k m) ≡ none
  get-delete_self k m = ground (arith, get-delete k k m)

  -- `m.delete(k); m.set(k, v)`: the entry moves to the end.
  pub set-delete :
      (k : K) (v : V) (m : OrdMap K V) → set k v (delete k m) ≡ delete k m ++ (k, v) ∷ []
  set-delete k v m = set_absent k v (delete k m) (get-delete_self k m)

  pub get-set_self : (k : K) (v : V) (m : OrdMap K V) → get k (set k v m) ≡ some v
  get-set_self k v m = ground (arith, get-set k k v m)

  pub delete-append : (k : K) (m n : OrdMap K V) → delete k (m ++ n) ≡ delete k m ++ delete k n
  unfolding delete
  delete-append k [] n = refl
  delete-append k ((j, w) ∷ m) n = ground (arith, delete-append k m n)

  pub get-none_of_append :
      (k : K) (m n : OrdMap K V) → get k (m ++ n) ≡ none → (get k m ≡ none) × (get k n ≡ none)
  unfolding get
  get-none_of_append k [] n h = (refl, h)
  get-none_of_append k ((j, w) ∷ m) n h = ground (arith, get-none_of_append k m n)

  -- A key of a map stands neither before nor behind its entry.
  pub IsMap-middle :
      (m : OrdMap K V) (k : K) (v : V) (n : OrdMap K V)
      → IsMap (m ++ (k, v) ∷ n)
      → (get k m ≡ none) × (get k n ≡ none)
  unfolding get
  IsMap-middle [] k v n h = (refl, h.0)
  IsMap-middle ((j, w) ∷ m) k v n h =
      ground (arith, IsMap-middle m k v n h.1, get-none_of_append j m ((k, v) ∷ n) h.0)

  pub delete-middle :
      (m : OrdMap K V) (k : K) (v : V) (n : OrdMap K V)
      → IsMap (m ++ (k, v) ∷ n)
      → delete k (m ++ (k, v) ∷ n) ≡ m ++ n
  unfolding delete
  delete-middle m k v n h =
      let (before, behind) = IsMap-middle m k v n h in
      ground
        (arith, delete-append k m ((k, v) ∷ n), delete_absent k m before, delete_absent k n behind)

  -- What a filter leaves of a map.
  pub get-retain :
      (test : K × V → Bool) (k : K) (m : OrdMap K V)
      → IsMap m
      → get k (retain test m)
        ≡ elim (get k m) [ none ↦ none | some v ↦ (if test (k, v) then some v else none) ]
  unfolding get
  get-retain test k [] h = refl
  get-retain test k ((j, w) ∷ m) h = ground (arith, get-retain test k m h.1, h.0)

  pub retain-IsMap : (test : K × V → Bool) (m : OrdMap K V) → IsMap m → IsMap (retain test m)
  retain-IsMap test [] h = h
  retain-IsMap test ((j, w) ∷ m) h =
      ground (arith, retain-IsMap test m h.1, get-retain test j m h.1, h.0)

  pub total-set :
      (f : V → ℕ) (k : K) (v : V) (m : OrdMap K V) {u : V}
      → get k m ≡ some u
      → total f (set k v m) + f u ≡ total f m + f v
  unfolding get set
  total-set f k v [] found = absurd (ground (arith, found))
  total-set f k v ((j, w) ∷ m) {u} found = ground (arith, total-set f k v m {u = u})

  pub drop-IsMap : (n : ℕ) (m : OrdMap K V) → IsMap m → IsMap (drop n m)
  drop-IsMap zero m h = h
  drop-IsMap (suc n) [] h = h
  drop-IsMap (suc n) (x ∷ m) h = drop-IsMap n m h.1

  pub total-drop :
      (f : V → ℕ) (n : ℕ) (m : OrdMap K V) → total f (take n m) + total f (drop n m) ≡ total f m
  total-drop f zero m = omega arith
  total-drop f (suc n) [] = omega arith
  total-drop f (suc n) ((j, w) ∷ m) = omega (arith, total-drop f n m)

  -- The last entry stays when no more than those before it are dropped.
  pub get-drop_last :
      (n : ℕ) (k : K) (v : V) (m : OrdMap K V)
      → n ≤ length m
      → get k m ≡ none
      → get k (drop n (m ++ (k, v) ∷ [])) ≡ some v
  unfolding get
  get-drop_last zero k v m h absent = ground (arith, get-append k k v m, absent)
  get-drop_last (suc n) k v [] h absent = absurd (omega arith)
  get-drop_last (suc n) k v ((j, w) ∷ m) h absent =
      let later : get k m ≡ none = ground (arith, absent) in
      get-drop_last n k v m (omega arith) later
