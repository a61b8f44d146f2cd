-- ===== src/Eviction/Aging.antt =====
-- What the sweep by age of src/background/cache/db.js takes, and what it leaves.
use aegis_stream.Prelude.Keys.{string_eq}
use aegis_stream.Prelude.OrdSet
use aegis_stream.Prelude.{
  ℕ, zero, suc, ◌+◌, ◌≤◌, ◌<◌, ◌≡◌, ◌⊎◌, refl, ap, subst, ◌∙◌, String, false, inl, inr, List, [],
  ◌∷◌, leb, ◌==◌, All, length, arith, Bool-cases,
}
use aegis_stream.Eviction.Plans.{Lane, soft, reconcile, hard}
use aegis_stream.Eviction.Sweeps.{
  Row, Limits, min_age_of, max_sweep_of, Swept, sweep_rows, age_sweep_cache_entries, sweep_in,
  evict_oldest_entries,
}

-- The row is one of the list.
abbrev pub In : Row → List Row → Type 0
In row [] = ⊥
In row (r ∷ rows) = (r ≡ row) ⊎ In row rows

pub In-evict :
    (urls : List String) (row : Row) (rows : List Row)
    → OrdSet.has row.url urls ≡ false
    → In row rows
    → In row (evict_oldest_entries urls rows)
In-evict urls row [] free h = h
In-evict urls row (r ∷ rows) free (inl same) =
    let kept : OrdSet.has r.url urls ≡ false = ap (λ x. OrdSet.has x.url urls) same ∙ free in
    rw kept (inl same)
In-evict urls row (r ∷ rows) free (inr h) = elim (Bool-cases (OrdSet.has r.url urls)) [
  | inl p ↦ rw p (In-evict urls row rows free h)
  | inr p ↦ rw p (inr (In-evict urls row rows free h))
]

-- A row is old enough to be swept.
abbrev pub IsOld : Limits → Row → Type 0
IsOld l row = row.created_at + min_age_of l ≤ l.now

-- What a sweep takes: no more than there may be, old rows only, and every row is taken or left.
pub record Taken (now min_age most : ℕ) (rows : List Row) (s : Swept) : Type 0 where
  pub few : length s.gone ≤ most
  pub old : All (λ row. row.created_at + min_age ≤ now) s.gone
  pub parts : (row : Row) → In row rows → In row s.gone ⊎ In row s.left

sweep_rows-Taken :
    (now min_age most : ℕ) (rows : List Row)
    → Taken now min_age most rows (sweep_rows now min_age most rows)
unfolding sweep_rows
sweep_rows-Taken now min_age most [] = record {
  few = omega arith;
  old = tt;
  parts = λ row h. inr h;
}
sweep_rows-Taken now min_age zero (r ∷ rows) = record {
  few = omega arith;
  old = tt;
  parts = λ row h. inr h;
}
sweep_rows-Taken now min_age (suc most) (r ∷ rows) =
    elim (Bool-cases (leb (r.created_at + min_age) now)) [
      | inl p ↦
          let h = sweep_rows-Taken now min_age most rows in
          rw (p, sweep_rows)
            (record {
              few = omega (arith, h.few);
              old = (ground (arith, p), h.old);
              parts = λ row there. elim there [
                | inl same ↦ inl (inl same)
                | inr deeper ↦ elim (h.parts row deeper) [
                  | inl gone ↦ inl (inr gone)
                  | inr left ↦ inr left
                ]
              ];
            })
      | inr p ↦
          let h = sweep_rows-Taken now min_age (suc most) rows in
          rw (p, sweep_rows)
            (record {
              few = h.few;
              old = h.old;
              parts = λ row there. elim there [
                | inl same ↦ inr (inl same)
                | inr deeper ↦ elim (h.parts row deeper) [
                  | inl gone ↦ inl gone
                  | inr left ↦ inr (inr left)
                ]
              ];
            })
    ]

-- What a lane sweeps: nothing, but for the reconciling lane with a minimal age.
pub record Sweeps (lane : Lane) (l : Limits) (rows : List Row) (s : Swept) : Type 0 where
  pub taken : Taken l.now (min_age_of l) (max_sweep_of l) rows s
  pub only : (s.gone ≡ []) ⊎ ((lane ≡ reconcile) × (0 < min_age_of l))

none_swept :
    (lane : Lane) (l : Limits) (rows : List Row)
    → Sweeps lane l rows (record { gone = []; left = rows })
none_swept lane l rows = record {
  taken = record { few = omega arith; old = tt; parts = λ row h. inr h };
  only = inl refl;
}

pub sweep_in-Sweeps :
    (lane : Lane) (l : Limits) (rows : List Row) → Sweeps lane l rows (sweep_in lane l rows)
unfolding sweep_in age_sweep_cache_entries
sweep_in-Sweeps soft l rows = none_swept soft l rows
sweep_in-Sweeps hard l rows = none_swept hard l rows
sweep_in-Sweeps reconcile l rows = elim (Bool-cases (min_age_of l == 0)) [
  | inl p ↦ rw p (none_swept reconcile l rows)
  | inr p ↦ rw p (record {
    taken = sweep_rows-Taken l.now (min_age_of l) (max_sweep_of l) rows;
    only = inr (refl, ground (arith, p));
  })
]

-- A row that is taken is an old one.
pub In-IsOld :
    (l : Limits) (row : Row) (rows : List Row) → All (IsOld l) rows → In row rows → IsOld l row
In-IsOld l row [] h there = absurd there
In-IsOld l row (r ∷ rows) h (inl same) = subst (IsOld l) same h.0
In-IsOld l row (r ∷ rows) h (inr there) = In-IsOld l row rows h.1 there

-- What holds for each row holds for all.
pub In-All : (P : Row → Type 0) (rows : List Row) → ((row : Row) → In row rows → P row) → All P rows
In-All P [] h = tt
In-All P (r ∷ rows) h = (h r (inl refl), In-All P rows (λ row there. h row (inr there)))
