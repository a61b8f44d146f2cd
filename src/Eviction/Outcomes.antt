-- ===== src/Eviction/Outcomes.antt =====
-- What a whole pass of eviction of src/background/cache/db.js does, in every case.
use aegis_stream.Prelude.Keys.{string_eq, nat_eq}
use aegis_stream.Prelude.OrdSet
use aegis_stream.Prelude.{
  ◌-◌, ◌≤◌, ◌≡◌, subst, Bool, true, false, not, ◌&&◌, inl, inr, Option, some, List, nonzero_or,
  none, [], ◌⊎◌, ◌<◌, All, map, length, refl, sym, arith, Bool-cases,
}
use aegis_stream.Eviction.Guards.{Keys}
use aegis_stream.Eviction.Sweeps.{
  Row, Limits, item_of, summarize_chunk_store, min_age_of, max_sweep_of, Swept, sweep_in, Done,
  carry_out, pass_body,
}
use aegis_stream.Eviction.Plans.{
  Lane, reconcile, Item, Plan, Protected, target_of, first_plan, is_over, plan_pass,
}
use aegis_stream.Eviction.Pressure.{Summary, Policy, evaluate_pressure}
use aegis_stream.Eviction.Aging.{In, In-evict, IsOld, sweep_in-Sweeps, In-All}
use aegis_stream.Eviction.Batches.{Sound, Stopped, plan_items-Stopped}
use aegis_stream.Eviction.Safety.{plan_pass-plans, pass-Sound, deleted_by}

-- What the plan of a pass is: none, in a pass that is not forced and has no reason to, or one that deletes only what is not
-- protected and at most a batch, makes up for what is over the targets, and stops for a reason.
abbrev pub Planned :
    Keys → Protected → Limits → Bool → Lane → Summary → Policy → List Item → Option Plan → Type 0
Planned keys sets l force lane summary policy order none =
    let pressure = evaluate_pressure l.ratios summary policy in
    (force ≡ false)
    × (((pressure.over_soft_threshold ≡ false) × (pressure.over_budget ≡ false))
        ⊎ (is_over (first_plan lane summary policy) ≡ false))
Planned keys sets l force lane summary policy order (some p) =
    Sound keys sets (nonzero_or 120 l.max_eviction_batch)
      (summary.total_entries - target_of lane policy.max_entries)
      (summary.total_bytes - target_of lane policy.max_bytes) p
    × Stopped keys sets (nonzero_or 120 l.max_eviction_batch) order (first_plan lane summary policy)
        p

plan_pass-none :
    (keys : Keys) (sets : Protected) (l : Limits) (force : Bool) (lane : Lane) (summary : Summary)
    (policy : Policy) (order : List Item)
    → plan_pass keys sets l.max_eviction_batch l.ratios force lane summary policy order ≡ none
    → Planned keys sets l force lane summary policy order none
unfolding plan_pass
plan_pass-none keys sets l force lane summary policy order h =
    let pressure = evaluate_pressure l.ratios summary policy in
    let first = first_plan lane summary policy in
    elim (Bool-cases
      (not force && (not pressure.over_soft_threshold && not pressure.over_budget))) [
        | inl q ↦ (ground (arith, q), inl (ground (arith, q), ground (arith, q)))
        | inr q ↦ elim (Bool-cases (not (is_over first) && not force)) [
          | inl r ↦ (ground (arith, r), inr (ground (arith, r)))
          | inr r ↦ absurd (ground (arith, h, q, r))
        ]
      ]

plan_pass-Planned :
    (keys : Keys) (sets : Protected) (l : Limits) (force : Bool) (lane : Lane) (summary : Summary)
    (policy : Policy) (order : List Item) (o : Option Plan)
    → plan_pass keys sets l.max_eviction_batch l.ratios force lane summary policy order ≡ o
    → Planned keys sets l force lane summary policy order o
plan_pass-Planned keys sets l force lane summary policy order none h =
    plan_pass-none keys sets l force lane summary policy order h
plan_pass-Planned keys sets l force lane summary policy order (some p) h = (
  pass-Sound keys sets l.max_eviction_batch l.ratios force lane summary policy order p h,
  subst
      (Stopped keys sets (nonzero_or 120 l.max_eviction_batch) order
        (first_plan lane summary policy))
      (plan_pass-plans keys sets l.max_eviction_batch l.ratios force lane summary policy order p h)
      (plan_items-Stopped keys sets (nonzero_or 120 l.max_eviction_batch) order
        (first_plan lane summary policy)),
)

-- Where a row is after a pass: in the store, swept, or deleted by the plan.
abbrev pub Settled : Done → Row → Type 0
Settled d row = In row d.rows ⊎ (In row d.swept ⊎ (OrdSet.has row.url (deleted_by d.plan) ≡ true))

carry_out-Settled :
    (s : Swept) (o : Option Plan) (row : Row)
    → In row s.gone ⊎ In row s.left
    → Settled (carry_out s o) row
unfolding carry_out
carry_out-Settled s none row (inl gone) = inr (inl gone)
carry_out-Settled s (some p) row (inl gone) = inr (inl gone)
carry_out-Settled s none row (inr left) = inl left
carry_out-Settled s (some p) row (inr left) =
    elim (Bool-cases (OrdSet.has row.url p.keys_to_delete)) [
      | inl deleted ↦ inr (inr deleted)
      | inr spared ↦ inl (In-evict p.keys_to_delete row s.left spared left)
    ]

-- The outcome of a pass.
pub record Outcome (keys : Keys) (sets : Protected) (l : Limits) (force : Bool) (lane : Lane)
    (policy : Policy) (order : List Item → List Item) (rows : List Row) (d : Done) : Type 0 where
  pub few : length d.swept ≤ max_sweep_of l
  pub old : All (IsOld l) d.swept
  pub only : (d.swept ≡ []) ⊎ ((lane ≡ reconcile) × (0 < min_age_of l))
  pub planned :
      Planned keys sets l force lane
        (summarize_chunk_store rows)
        policy
        (order (map item_of rows))
        d.plan
  pub settled : All (Settled d) rows

carry_out-swept : (s : Swept) (o : Option Plan) → (carry_out s o).swept ≡ s.gone
unfolding carry_out
carry_out-swept s none = refl
carry_out-swept s (some p) = refl

carry_out-plan : (s : Swept) (o : Option Plan) → (carry_out s o).plan ≡ o
unfolding carry_out
carry_out-plan s none = refl
carry_out-plan s (some p) = refl

-- For any pass: its sweep by age takes rows only in the reconciling lane and if a minimal age is set,
-- protected or not, but only rows that have reached it, and no more of them than the limit of a sweep.
-- A pass has a plan unless it is not forced, and is below the soft threshold and the budget, or has
-- nothing over its targets. What a plan deletes is not protected and no more than a batch; that
-- and what is still over make up at least what was over the targets before the sweep; and the plan
-- stops only when nothing is over, the batch is full, or everything in the order that is not protected
-- is deleted. Every row is then in the store, was swept, or has its key deleted by the plan.
pub pass_body-Outcome :
    (keys : Keys) (sets : Protected) (l : Limits) (force : Bool) (lane : Lane) (policy : Policy)
    (order : List Item → List Item) (rows : List Row)
    → Outcome keys sets l force lane policy order rows
        (pass_body keys sets l force lane policy order rows)
unfolding pass_body
pass_body-Outcome keys sets l force lane policy order rows =
    let s = sweep_in lane l rows in
    let sweep = sweep_in-Sweeps lane l rows in
    let summary = summarize_chunk_store rows in
    let items = order (map item_of rows) in
    let o = plan_pass keys sets l.max_eviction_batch l.ratios force lane summary policy items in
    let same = sym (carry_out-swept s o) in
    record {
      few = subst (λ gone. length gone ≤ max_sweep_of l) same sweep.taken.few;
      old = subst (All (IsOld l)) same sweep.taken.old;
      only =
          subst (λ gone. (gone ≡ []) ⊎ ((lane ≡ reconcile) × (0 < min_age_of l))) same sweep.only;
      planned =
          subst (Planned keys sets l force lane summary policy items) (sym (carry_out-plan s o))
            (plan_pass-Planned keys sets l force lane summary policy items o refl);
      settled =
          In-All (Settled (carry_out s o)) rows
            (λ row there. carry_out-Settled s o row (sweep.taken.parts row there));
    }
