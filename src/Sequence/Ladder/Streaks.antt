-- ===== src/Sequence/Ladder/Streaks.antt =====
-- Runs of fresh observations in src/background/media/segment-sequence.js.
use aegis_stream.Prelude.Keys.{nat_eq}
use aegis_stream.Prelude.OrdMap
use aegis_stream.Prelude.OrdMap.{OrdMap, keys}
use aegis_stream.Prelude.{
  ℕ, ◌+◌, ◌-◌, ◌≤◌, ◌<◌, ◌≡◌, refl, true, ◌&&◌, some, List, [], ◌∷◌, ltb, leb, length, sort, insert,
  All, if_pos, if_neg, arith, Bool-cases, inl, inr,
}
use aegis_stream.Sequence.Ladder.{
  Tunables, min_observations_of, max_index_gap_of, observation_ttl_of, prune_observations, run_from,
  run_in, has_consecutive_run,
}

-- From the last index back: each is larger than the one before it, by no more than the gap.
abbrev pub Descends : ℕ → List ℕ → Type 0
Descends gap [] = Unit
Descends gap (x ∷ []) = Unit
Descends gap (x ∷ y ∷ rest) = (y < x) × (x - y ≤ gap) × Descends gap (y ∷ rest)

-- An index was observed, and no longer ago than the limit.
abbrev pub Fresh : Tunables → ℕ → OrdMap ℕ ℕ → ℕ → Type 0
Fresh t now seen index =
    (seen_at : ℕ) × (OrdMap.get index seen ≡ some seen_at) × (now - seen_at ≤ observation_ttl_of t)

-- A run of fresh observations that is long enough.
pub record LongRun (t : Tunables) (now : ℕ) (seen : OrdMap ℕ ℕ) : Type 0 where
  pub indices : List ℕ
  pub enough : min_observations_of t ≤ length indices
  pub consecutive : Descends (max_index_gap_of t) indices
  pub fresh : All (Fresh t now seen) indices

module _ (t : Tunables) (now : ℕ) (seen : OrdMap ℕ ℕ) where
  -- `acc` is the run so far, without its last index.
  run_from-LongRun :
      (last run : ℕ) (rest acc : List ℕ)
      → run_from (min_observations_of t) (max_index_gap_of t) last run rest ≡ true
      → length (last ∷ acc) ≡ run
      → Descends (max_index_gap_of t) (last ∷ acc)
      → All (Fresh t now seen) (last ∷ acc)
      → All (Fresh t now seen) rest
      → LongRun t now seen
  unfolding run_from
  run_from-LongRun last run [] acc h len down fresh more = cc
  run_from-LongRun last run (index ∷ rest) acc h len down fresh more =
      elim (Bool-cases (ltb last index && leb (index - last) (max_index_gap_of t))) [
        | inl joins ↦ elim (Bool-cases (leb (min_observations_of t) (run + 1))) [
          | inl long ↦ record {
            indices = index ∷ last ∷ acc;
            enough = ground (arith, long, len);
            consecutive = (ground (arith, joins), ground (arith, joins), down);
            fresh = (more.0, fresh);
          }
          | inr short ↦
              run_from-LongRun index (run + 1) rest (last ∷ acc) (ground (arith, h, joins, short))
                (omega (arith, len)) (ground (arith, joins), ground (arith, joins), down)
                (more.0, fresh) more.1
        ]
        | inr breaks ↦
            let two : 2 ≤ min_observations_of t = ground arith in
            run_from-LongRun index 1 rest [] (ground (arith, h, breaks, two)) refl tt (more.0, tt)
              more.1
      ]

  run_in-LongRun :
      (indices : List ℕ)
      → run_in (min_observations_of t) (max_index_gap_of t) indices ≡ true
      → All (Fresh t now seen) indices
      → LongRun t now seen
  unfolding run_in
  run_in-LongRun [] h fresh = cc
  run_in-LongRun (index ∷ rest) h fresh =
      run_from-LongRun index 1 rest [] h refl tt (fresh.0, tt) fresh.1

insert-All : (P : ℕ → Type 0) (x : ℕ) (xs : List ℕ) → P x → All P xs → All P (insert x xs)
insert-All P x [] px h = (px, tt)
insert-All P x (y ∷ ys) px h = elim (Bool-cases (leb x y)) [
  | inl p ↦ rw p (px, h)
  | inr p ↦ rw p (h.0, insert-All P x ys px h.1)
]

sort-All : (P : ℕ → Type 0) (xs : List ℕ) → All P xs → All P (sort xs)
sort-All P [] h = tt
sort-All P (x ∷ xs) h = insert-All P x (sort xs) h.0 (sort-All P xs h.1)

abbrev Young : Tunables → ℕ → ℕ × ℕ → Type 0
Young t now (index, seen_at) = now - seen_at ≤ observation_ttl_of t

prune-Young :
    (t : Tunables) (now : ℕ) (m : OrdMap ℕ ℕ) → All (Young t now) (prune_observations t now m)
prune-Young t now [] = tt
prune-Young t now ((index, seen_at) ∷ m) =
    elim (Bool-cases (ltb (observation_ttl_of t) (now - seen_at))) [
      | inl p ↦ rw p (prune-Young t now m)
      | inr p ↦ rw p (ground (arith, p), prune-Young t now m)
    ]

-- What is fresh stays so when a fresh observation is put before.
Fresh-cons :
    (t : Tunables) (now index seen_at : ℕ) (m : OrdMap ℕ ℕ) (j : ℕ)
    → now - seen_at ≤ observation_ttl_of t
    → Fresh t now m j
    → Fresh t now ((index, seen_at) ∷ m) j
unfolding OrdMap.get
Fresh-cons t now index seen_at m j young (at, found, old) = elim (nat_eq.dec index j) [
  | yes p ↦ rw (if_pos _ p) (seen_at, refl, young)
  | no p ↦ rw (if_neg _ p) (at, found, old)
]

Fresh-cons_all :
    (t : Tunables) (now index seen_at : ℕ) (m : OrdMap ℕ ℕ) (js : List ℕ)
    → now - seen_at ≤ observation_ttl_of t
    → All (Fresh t now m) js
    → All (Fresh t now ((index, seen_at) ∷ m)) js
Fresh-cons_all t now index seen_at m [] young h = tt
Fresh-cons_all t now index seen_at m (j ∷ js) young h = (
  Fresh-cons t now index seen_at m j young h.0,
  Fresh-cons_all t now index seen_at m js young h.1,
)

Fresh-head :
    (t : Tunables) (now index seen_at : ℕ) (m : OrdMap ℕ ℕ)
    → now - seen_at ≤ observation_ttl_of t
    → Fresh t now ((index, seen_at) ∷ m) index
unfolding OrdMap.get
Fresh-head t now index seen_at m young = (seen_at, ground arith, young)

keys-Fresh :
    (t : Tunables) (now : ℕ) (m : OrdMap ℕ ℕ) → All (Young t now) m → All (Fresh t now m) (keys m)
keys-Fresh t now [] h = tt
keys-Fresh t now ((index, seen_at) ∷ m) h = (
  Fresh-head t now index seen_at m h.0,
  Fresh-cons_all t now index seen_at m (keys m) h.0 (keys-Fresh t now m h.1),
)

pub has_consecutive_run-LongRun :
    (t : Tunables) (now : ℕ) (m : OrdMap ℕ ℕ)
    → has_consecutive_run t (prune_observations t now m) ≡ true
    → LongRun t now (prune_observations t now m)
unfolding has_consecutive_run
has_consecutive_run-LongRun t now m h =
    let seen = prune_observations t now m in
    run_in-LongRun t now seen (sort (keys seen)) (ground (arith, h))
      (sort-All (Fresh t now seen) (keys seen) (keys-Fresh t now seen (prune-Young t now m)))
