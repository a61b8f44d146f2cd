-- ===== src/Eviction/Passes.antt =====
-- The runs of the eviction pass of src/background/cache/db.js: how many at a time, and how often.
use aegis_stream.Prelude.{
  zero, suc, ℕ, ◌+◌, ◌-◌, ◌≤◌, ◌≡◌, ◌⊎◌, refl, sym, ap, subst, Bool, true, false, not, ◌&&◌, inl,
  inr, List, [], ◌∷◌, ltb, arith, Bool-cases, if◌then◌else◌,
}
use aegis_stream.Eviction.Plans.{
  Lane, soft, reconcile, hard, Passes, is_hard, is_too_soon, note_run, begin_pass, end_pass,
  clear_passes,
}

-- A call of the pass, the end of one that runs, or a clearing of the cache.
pub data Event : Type 0 where
  calls : ℕ → Bool → Bool → Lane → Event
  ends clears : Event

-- A pass that has started.
pub record Start : Type 0 where
  pub at : ℕ
  pub force : Bool
  pub lane : Lane

-- What happened, the last first.
pub data Entry : Type 0 where
  started : Start → Entry
  cleared : Entry

-- The state with what happened, and how many passes run.
pub record World : Type 0 where
  pub passes : Passes
  pub log : List Entry
  pub live : ℕ

abbrev pub idle_world : World
idle_world = record {
  passes = record {
    last_soft_at = 0;
    last_reconcile_at = 0;
    last_hard_at = 0;
    in_progress = false;
  };
  log = [];
  live = 0;
}

abbrev pub log_start : ℕ → Bool → Lane → Bool × Passes → World → World
log_start now force lane (starts, passes) w =
    if starts
    then record w {
      passes = passes;
      log = started (record { at = now; force = force; lane = lane }) ∷ w.log;
      live = w.live + 1;
    }
    else record w { passes = passes }

-- The end of one of so many passes that run.
abbrev pub stop : ℕ → World → World
stop zero w = w
stop (suc others) w = record w { passes = end_pass w.passes; live = others }

unfoldable pub happen : ℕ → Event → World → World
happen interval (calls now suppressed force lane) w =
    log_start now force lane (begin_pass interval now suppressed force lane w.passes) w
happen interval ends w = stop w.live w
happen interval clears w = record w { passes = clear_passes w.passes; log = cleared ∷ w.log }

abbrev pub happen_all : ℕ → List Event → World → World
happen_all interval [] w = w
happen_all interval (e ∷ es) w = happen_all interval es (happen interval e w)

abbrev pub same_lane : Lane → Lane → Bool
same_lane soft soft = true
same_lane soft reconcile = false
same_lane soft hard = false
same_lane reconcile soft = false
same_lane reconcile reconcile = true
same_lane reconcile hard = false
same_lane hard soft = false
same_lane hard reconcile = false
same_lane hard hard = true

-- When the last pass of the lane started since the last clearing, or 0.
abbrev pub last_of : Lane → List Entry → ℕ
last_of lane [] = 0
last_of lane (cleared ∷ log) = 0
last_of lane (started s ∷ log) =
    let before = last_of lane log in if same_lane s.lane lane then s.at else before

-- Every start of the soft or the reconciling lane that was not forced came no sooner than the interval
-- after the one of its lane before, if there was one since the last clearing.
abbrev pub Spaced : ℕ → List Entry → Type 0
Spaced interval [] = Unit
Spaced interval (cleared ∷ log) = Spaced interval log
Spaced interval (started s ∷ log) =
    ((s.force ≡ true) ⊎ ((is_hard s.lane ≡ true) ⊎ (interval ≤ s.at - last_of s.lane log)))
    × Spaced interval log

abbrev pub running : Bool → ℕ
running false = 0
running true = 1

abbrev pub clearings : List Entry → ℕ
clearings [] = 0
clearings (cleared ∷ log) = clearings log + 1
clearings (started s ∷ log) = clearings log

-- As many passes run as the flag says, and one more at most for each clearing; and the times of the
-- lanes are those of the last starts.
pub record Inv (interval : ℕ) (w : World) : Type 0 where
  pub few : w.live ≤ running w.passes.in_progress + clearings w.log
  pub soft_time : w.passes.last_soft_at ≡ last_of soft w.log
  pub reconcile_time : w.passes.last_reconcile_at ≡ last_of reconcile w.log
  pub spaced : Spaced interval w.log

-- A call starts a pass if none runs and it is not too soon, and else changes nothing.
begin-cases :
    (interval now : ℕ) (suppressed force : Bool) (lane : Lane) (p : Passes)
    → (begin_pass interval now suppressed force lane p ≡ (false, p))
      ⊎ ((begin_pass interval now suppressed force lane p ≡ (true, note_run now lane p))
          × (p.in_progress ≡ false)
          × ((not force && is_too_soon interval now lane p) ≡ false))
unfolding begin_pass
begin-cases interval now suppressed force lane p =
    elim (Bool-cases (not force && (not (is_hard lane) && suppressed))) [
      | inl a ↦ inl (rw a refl)
      | inr a ↦ elim (Bool-cases (not force && is_too_soon interval now lane p)) [
        | inl b ↦ inl (rw (a, b) refl)
        | inr b ↦ elim (Bool-cases p.in_progress) [
          | inl c ↦ inl (rw (a, b) (simp c))
          | inr c ↦ inr (rw (a, b) (simp c), c, b)
        ]
      ]
    ]

-- What is not too soon is forced, or of the hard lane, or comes after the interval.
start-spaced :
    (interval now last : ℕ) (force : Bool)
    → (not force && ltb (now - last) interval) ≡ false
    → (force ≡ true) ⊎ (interval ≤ now - last)
start-spaced interval now last true h = inl refl
start-spaced interval now last false h = inr (ground (arith, h))

start-Inv :
    (interval now : ℕ) (force : Bool) (lane : Lane) (w : World)
    → Inv interval w
    → w.passes.in_progress ≡ false
    → (not force && is_too_soon interval now lane w.passes) ≡ false
    → Inv interval (log_start now force lane (true, note_run now lane w.passes) w)
start-Inv interval now force soft w h rests late = record {
  few = omega (arith, h.few, ap running rests);
  soft_time = refl;
  reconcile_time = h.reconcile_time;
  spaced = (
    elim (start-spaced interval now w.passes.last_soft_at force late) [
      | inl forced ↦ inl forced
      | inr after ↦ inr (inr (omega (arith, after, h.soft_time)))
    ],
    h.spaced,
  );
}
start-Inv interval now force reconcile w h rests late = record {
  few = omega (arith, h.few, ap running rests);
  soft_time = h.soft_time;
  reconcile_time = refl;
  spaced = (
    elim (start-spaced interval now w.passes.last_reconcile_at force late) [
      | inl forced ↦ inl forced
      | inr after ↦ inr (inr (omega (arith, after, h.reconcile_time)))
    ],
    h.spaced,
  );
}
start-Inv interval now force hard w h rests late = record {
  few = omega (arith, h.few, ap running rests);
  soft_time = h.soft_time;
  reconcile_time = h.reconcile_time;
  spaced = (inr (inl refl), h.spaced);
}

call-Inv :
    (interval now : ℕ) (suppressed force : Bool) (lane : Lane) (w : World)
    → Inv interval w
    → Inv interval (happen interval (calls now suppressed force lane) w)
unfolding happen
call-Inv interval now suppressed force lane w h =
    let logged = λ (r : Bool × Passes). Inv interval (log_start now force lane r w) in
    elim (begin-cases interval now suppressed force lane w.passes) [
      | inl same ↦ subst logged (sym same) h
      | inr (starts, rests, late) ↦
          subst logged (sym starts) (start-Inv interval now force lane w h rests late)
    ]

running_few : (b : Bool) → running b ≤ 1
running_few true = omega arith
running_few false = omega arith

stop-Inv :
    (interval live : ℕ) (w : World) → w.live ≡ live → Inv interval w → Inv interval (stop live w)
unfolding end_pass
stop-Inv interval zero w p h = h
stop-Inv interval (suc others) w p h = record {
  few = omega (arith, h.few, p, running_few w.passes.in_progress);
  soft_time = h.soft_time;
  reconcile_time = h.reconcile_time;
  spaced = h.spaced;
}

clear-Inv : (interval : ℕ) (w : World) → Inv interval w → Inv interval (happen interval clears w)
unfolding happen clear_passes
clear-Inv interval w h = record {
  few = omega (arith, h.few, running_few w.passes.in_progress);
  soft_time = refl;
  reconcile_time = refl;
  spaced = h.spaced;
}

happen-Inv :
    (interval : ℕ) (e : Event) (w : World) → Inv interval w → Inv interval (happen interval e w)
unfolding happen
happen-Inv interval (calls now suppressed force lane) w h =
    call-Inv interval now suppressed force lane w h
happen-Inv interval ends w h = stop-Inv interval w.live w refl h
happen-Inv interval clears w h = clear-Inv interval w h

passes-Inv :
    (interval : ℕ) (events : List Event) (w : World)
    → Inv interval w
    → Inv interval (happen_all interval events w)
passes-Inv interval [] w h = h
passes-Inv interval (e ∷ es) w h =
    passes-Inv interval es (happen interval e w) (happen-Inv interval e w h)

-- After any calls of the pass, ends of passes and clearings of the cache, from a worker that has run no
-- pass: no more passes run than one and one for each clearing, so that one runs at most where nothing
-- was cleared; and every pass of the soft or the reconciling lane that was not forced started no sooner
-- than the interval after the one of its lane before, if that started after the last clearing.
pub happen_all-idle_world :
    (interval : ℕ) (events : List Event)
    → let w = happen_all interval events idle_world in
      (w.live ≤ 1 + clearings w.log) × Spaced interval w.log
happen_all-idle_world interval events =
    let h =
      passes-Inv interval events idle_world
        (record { few = omega arith; soft_time = refl; reconcile_time = refl; spaced = tt }) in
    let w = happen_all interval events idle_world in
    (omega (arith, h.few, running_few w.passes.in_progress), h.spaced)
