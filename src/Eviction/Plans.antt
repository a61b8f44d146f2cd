-- ===== src/Eviction/Plans.antt =====
-- The pass of src/background/cache/db.js that picks what to evict. What is over a target is
-- a natural number: where the code has a negative number, it is 0, and the code only asks whether it
-- is positive.
use aegis_stream.Eviction.Guards.{
  Keys, Env, Tab, collect_guard_ring_protected_urls, collect_tier_a_protected_urls,
  collect_consumer_protected_urls, is_url_guard_ring_protected,
}
use aegis_stream.Eviction.Pressure.{Summary, Policy, Ratios, evaluate_pressure}
use aegis_stream.Prelude.{
  ℕ, ◌+◌, ◌-◌, ◌*◌, ◌/◌, String, Bool, true, false, not, ◌&&◌, ◌||◌, Option, none, some, List, [],
  ◌∷◌, ◌++◌, ltb, leb, if◌then◌else◌, length, nonzero_or,
}

pub data Lane : Type 0 where
  soft reconcile hard : Lane

-- What is kept of the pass between its runs.
pub record Passes : Type 0 where
  pub last_soft_at : ℕ
  pub last_reconcile_at : ℕ
  pub last_hard_at : ℕ
  pub in_progress : Bool

abbrev pub is_hard : Lane → Bool
is_hard hard = true
is_hard soft = false
is_hard reconcile = false

-- Whether a run of the lane came too soon after its last one.
abbrev pub is_too_soon : ℕ → ℕ → Lane → Passes → Bool
is_too_soon interval now soft p = ltb (now - p.last_soft_at) interval
is_too_soon interval now reconcile p = ltb (now - p.last_reconcile_at) interval
is_too_soon interval now hard p = false

abbrev pub note_run : ℕ → Lane → Passes → Passes
note_run now soft p = record p { last_soft_at = now; in_progress = true }
note_run now reconcile p = record p { last_reconcile_at = now; in_progress = true }
note_run now hard p = record p { last_hard_at = now; in_progress = true }

-- The guards of `runEvictionPass`: whether it goes on.
unfoldable pub begin_pass : ℕ → ℕ → Bool → Bool → Lane → Passes → Bool × Passes
begin_pass interval now suppressed force lane p =
    if not force && (not (is_hard lane) && suppressed)
    then (false, p)
    else if not force && is_too_soon interval now lane p
    then (false, p)
    else if p.in_progress
    then (false, p)
    else (true, note_run now lane p)

-- The `finally` block.
unfoldable pub end_pass : Passes → Passes
end_pass p = record p { in_progress = false }

-- What `clearCacheStores` makes of them, a pass running or not.
unfoldable pub clear_passes : Passes → Passes
clear_passes p = record {
  last_soft_at = 0;
  last_reconcile_at = 0;
  last_hard_at = 0;
  in_progress = false;
}

pub record Item : Type 0 where
  pub url : String
  pub byte_length : ℕ

pub record Plan : Type 0 where
  pub keys_to_delete : List String
  pub overflow_entries : ℕ
  pub overflow_bytes : ℕ
  pub reclaimed_bytes : ℕ
  pub skipped_tier_a : ℕ
  pub skipped_consumers : ℕ

-- The sets of the guard ring, with what consumers hold, and of what they hold alone.
pub record Protected : Type 0 where
  pub guard_ring_set : List String
  pub tier_a_set : List String
  pub consumer_only_set : List String

-- The sets that the pass collects.
unfoldable pub sets_of : Keys → Env → List Tab → List (String × ℕ) → Protected
sets_of keys env tabs inflight = record {
  guard_ring_set = collect_guard_ring_protected_urls keys env tabs;
  tier_a_set = collect_tier_a_protected_urls keys env tabs inflight;
  consumer_only_set = collect_consumer_protected_urls keys inflight;
}

abbrev pub target_ratio : Lane → ℕ
target_ratio reconcile = 60
target_ratio soft = 75
target_ratio hard = 85

abbrev pub target_of : Lane → ℕ → ℕ
target_of lane most = most * target_ratio lane / 100

unfoldable pub first_plan : Lane → Summary → Policy → Plan
first_plan lane summary policy = record {
  keys_to_delete = [];
  overflow_entries = summary.total_entries - target_of lane policy.max_entries;
  overflow_bytes = summary.total_bytes - target_of lane policy.max_bytes;
  reclaimed_bytes = 0;
  skipped_tier_a = 0;
  skipped_consumers = 0;
}

abbrev pub is_over : Plan → Bool
is_over p = ltb 0 p.overflow_entries || ltb 0 p.overflow_bytes

-- A set without elements protects nothing.
abbrev pub skip_item : Keys → Protected → Item → Plan → Plan
skip_item keys sets item p = record p {
  skipped_tier_a = p.skipped_tier_a + 1;
  skipped_consumers =
      if is_url_guard_ring_protected keys item.url sets.consumer_only_set
        && not (is_url_guard_ring_protected keys item.url sets.guard_ring_set)
      then p.skipped_consumers + 1
      else p.skipped_consumers;
}

abbrev pub evict_item : Item → Plan → Plan
evict_item item p = record p {
  keys_to_delete = p.keys_to_delete ++ item.url ∷ [];
  overflow_entries = p.overflow_entries - 1;
  overflow_bytes = p.overflow_bytes - item.byte_length;
  reclaimed_bytes = p.reclaimed_bytes + item.byte_length;
}

unfoldable pub consider : Keys → Protected → Item → Plan → Plan
consider keys sets item p =
    if is_url_guard_ring_protected keys item.url sets.tier_a_set
    then skip_item keys sets item p
    else evict_item item p

abbrev pub is_done : ℕ → Plan → Bool
is_done max_deletes p = not (is_over p) || leb max_deletes (length p.keys_to_delete)

-- The loop over the order of eviction, which `sortEvictionCandidates` gives.
unfoldable pub plan_items : Keys → Protected → ℕ → List Item → Plan → Plan
unfolding consider
plan_items keys sets max_deletes [] p = p
plan_items keys sets max_deletes (item ∷ items) p =
    let rest = plan_items keys sets max_deletes items (consider keys sets item p) in
    if is_done max_deletes p then p else rest

-- `none` where the pass has nothing to do.
unfoldable pub plan_pass :
    Keys → Protected → Option ℕ → Ratios → Bool → Lane → Summary → Policy → List Item → Option Plan
unfolding evaluate_pressure first_plan plan_items
plan_pass keys sets max_batch ratios force lane summary policy order =
    let pressure = evaluate_pressure ratios summary policy in
    let p = first_plan lane summary policy in
    if not force && (not pressure.over_soft_threshold && not pressure.over_budget)
    then none
    else if not (is_over p) && not force
    then none
    else some (plan_items keys sets (nonzero_or 120 max_batch) order p)

-- Whether the pass schedules a forced one at its end.
abbrev pub schedules_again : Plan → Bool
schedules_again p = is_over p
