-- ===== src/Eviction/Safety.antt =====
-- What a pass of eviction of src/background/cache/db.js deletes, and what it leaves.
use aegis_stream.Prelude.Keys.{string_eq, nat_eq}
use aegis_stream.Prelude.OrdSet
use aegis_stream.Prelude.{
  ℕ, ◌+◌, ◌-◌, ◌≤◌, ◌≡◌, subst, String, Bool, true, false, not, ◌&&◌, inl, inr, Option, some, List,
  get_elem?, nonzero_or, none, [], ◌⊎◌, ◌<◌, map, ◌+◌, refl, arith, Bool-cases, Option-cases,
}
use aegis_stream.Eviction.Guards.{
  Keys, is_url_guard_ring_protected, Env, Tab, past_of, future_of, anchors_or_none,
}
use aegis_stream.Eviction.Sweeps.{
  Row, Limits, item_of, summarize_chunk_store, min_age_of, Swept, sweep_in, carry_out, pass_body,
}
use aegis_stream.Eviction.Plans.{
  Lane, reconcile, Item, Plan, Protected, target_of, first_plan, is_over, plan_items, plan_pass,
  sets_of,
}
use aegis_stream.Eviction.Pressure.{Summary, Policy, Ratios, evaluate_pressure}
use aegis_stream.Eviction.Aging.{In, In-evict, IsOld, Sweeps, sweep_in-Sweeps, In-IsOld}
use aegis_stream.Eviction.Windows.{is_key_of, Among, window-protected}
use aegis_stream.Eviction.Batches.{free_of_protected, Sound, plan_items-Sound}

-- A pass that has something to do goes through the order from the plan with nothing in it.
pub plan_pass-plans :
    (keys : Keys) (sets : Protected) (max_batch : Option ℕ) (ratios : Ratios) (force : Bool)
    (lane : Lane) (summary : Summary) (policy : Policy) (order : List Item) (p : Plan)
    → plan_pass keys sets max_batch ratios force lane summary policy order ≡ some p
    → plan_items keys sets (nonzero_or 120 max_batch) order (first_plan lane summary policy) ≡ p
unfolding plan_pass
plan_pass-plans keys sets max_batch ratios force lane summary policy order p h =
    let pressure = evaluate_pressure ratios summary policy in
    elim (Bool-cases
      (not force && (not pressure.over_soft_threshold && not pressure.over_budget))) [
        | inl q ↦ absurd (ground (arith, h, q))
        | inr q ↦ elim (Bool-cases (not (is_over (first_plan lane summary policy)) && not force)) [
          | inl r ↦ absurd (ground (arith, h, q, r))
          | inr r ↦ ground (arith, h, q, r)
        ]
      ]

pub first-Sound :
    (keys : Keys) (sets : Protected) (max_deletes : ℕ) (lane : Lane) (summary : Summary)
    (policy : Policy)
    → Sound keys sets max_deletes
        (summary.total_entries - target_of lane policy.max_entries)
        (summary.total_bytes - target_of lane policy.max_bytes)
        (first_plan lane summary policy)
unfolding first_plan
first-Sound keys sets max_deletes lane summary policy = record {
  free = tt;
  batch = omega arith;
  counted = omega arith;
  measured = omega arith;
}

pub pass-Sound :
    (keys : Keys) (sets : Protected) (max_batch : Option ℕ) (ratios : Ratios) (force : Bool)
    (lane : Lane) (summary : Summary) (policy : Policy) (order : List Item) (p : Plan)
    → plan_pass keys sets max_batch ratios force lane summary policy order ≡ some p
    → Sound keys sets
        (nonzero_or 120 max_batch)
        (summary.total_entries - target_of lane policy.max_entries)
        (summary.total_bytes - target_of lane policy.max_bytes)
        p
pass-Sound keys sets max_batch ratios force lane summary policy order p h =
    let entries = summary.total_entries - target_of lane policy.max_entries in
    let bytes = summary.total_bytes - target_of lane policy.max_bytes in
    subst (Sound keys sets (nonzero_or 120 max_batch) entries bytes)
      (plan_pass-plans keys sets max_batch ratios force lane summary policy order p h)
      (plan_items-Sound keys sets (nonzero_or 120 max_batch) entries bytes order
        (first_plan lane summary policy)
        (first-Sound keys sets (nonzero_or 120 max_batch) lane summary policy))

-- The URLs that a pass deletes by its plan.
abbrev pub deleted_by : Option Plan → List String
deleted_by none = []
deleted_by (some p) = p.keys_to_delete

pub carry_out-keeps :
    (s : Swept) (o : Option Plan) (row : Row)
    → OrdSet.has row.url (deleted_by o) ≡ false
    → In row s.left
    → In row (carry_out s o).rows
unfolding carry_out
carry_out-keeps s none row h there = there
carry_out-keeps s (some p) row h there = In-evict p.keys_to_delete row s.left h there

-- What the plan of a pass deletes is not protected.
pub plan_pass-spares :
    (keys : Keys) (sets : Protected) (max_batch : Option ℕ) (ratios : Ratios) (force : Bool)
    (lane : Lane) (summary : Summary) (policy : Policy) (order : List Item) (url : String)
    → is_url_guard_ring_protected keys url sets.tier_a_set ≡ true
    → OrdSet.has url
        (deleted_by (plan_pass keys sets max_batch ratios force lane summary policy order))
      ≡ false
unfolding OrdSet.has
plan_pass-spares keys sets max_batch ratios force lane summary policy order url protected =
    elim (Option-cases (plan_pass keys sets max_batch ratios force lane summary policy order)) [
      | inl q ↦ rw q refl
      | inr (p, q) ↦
          let sound = pass-Sound keys sets max_batch ratios force lane summary policy order p q in
          rw q (free_of_protected keys sets p.keys_to_delete url sound.free protected)
    ]

pub sweep_exception :
    (lane : Lane) (l : Limits) (rows : List Row) (s : Swept) (row : Row)
    → Sweeps lane l rows s
    → In row s.gone
    → (lane ≡ reconcile) × (0 < min_age_of l) × IsOld l row
sweep_exception lane l rows s row h there = elim h.only [
  | inl empty ↦ absurd (subst (In row) empty there)
  | inr (reconciles, some_age) ↦ (reconciles, some_age, In-IsOld l row s.gone h.taken.old there)
]

-- A pass with the sets collected from the tabs, forced or not, in any lane and under any pressure, and
-- whatever the order is in which it tries the rows. Take a row of the store whose key, normalized, is
-- the normalized URL of a segment or one of its variants, and let the segment's index be, for an anchor
-- of one of the tabs, between the past and the future of the anchor. Then the row is in the store after
-- the pass, unless the pass is of the reconciling lane, a minimal age for the sweep is set, and the row
-- has reached it.
pub pass_body-keeps_window :
    (keys : Keys) (env : Env) (tabs : List Tab) (inflight : List (String × ℕ)) (l : Limits)
    (force : Bool) (lane : Lane) (policy : Policy) (order : List Item → List Item) (rows : List Row)
    (row : Row) (t : Tab) (url n k : String) (anchor i : ℕ)
    → In row rows
    → keys.strip_hash row.url ≡ some k
    → is_key_of keys n k ≡ true
    → keys.strip_hash url ≡ some n
    → Among t tabs
    → OrdSet.has anchor (anchors_or_none env t) ≡ true
    → anchor ≤ i + past_of env t
    → i ≤ anchor + future_of env t
    → get_elem? t.segments i ≡ some url
    → In row (pass_body keys (sets_of keys env tabs inflight) l force lane policy order rows).rows
      ⊎ ((lane ≡ reconcile) × (0 < min_age_of l) × IsOld l row)
unfolding pass_body sets_of
pass_body-keeps_window keys env tabs inflight l force lane policy order rows row t url n k anchor i
      there row_key mine stripped among anchored low high listed =
    let sets = sets_of keys env tabs inflight in
    let sweep = sweep_in-Sweeps lane l rows in
    let protected =
      window-protected keys env t url n row.url k anchor i tabs inflight among stripped mine
        anchored low high listed row_key in
    let summary = summarize_chunk_store rows in
    let spared =
      plan_pass-spares keys sets l.max_eviction_batch l.ratios force lane summary policy
        (order (map item_of rows)) row.url protected in
    elim (sweep.taken.parts row there) [
      | inl gone ↦ inr (sweep_exception lane l rows (sweep_in lane l rows) row sweep gone)
      | inr left ↦ inl (
          carry_out-keeps (sweep_in lane l rows)
            (plan_pass keys sets l.max_eviction_batch l.ratios force lane summary policy
              (order (map item_of rows)))
            row spared left)
    ]
