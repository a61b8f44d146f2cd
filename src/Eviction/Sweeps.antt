-- ===== src/Eviction/Sweeps.antt =====
-- The body of a pass of src/background/cache/db.js: the sweep by age, the plan, and the deletions.
--
-- The rows are those of the store of chunks, in the order of its index by time; the key of a row is
-- its URL (the key path of the store). The transactions do not fail, and
-- nothing else writes the store during the pass; the aliases of the rows, the index
-- of keys in memory and the journal, which gets the same rows, are left out.
use aegis_stream.Prelude.Keys.{string_eq}
use aegis_stream.Prelude.OrdSet
use aegis_stream.Eviction.Guards.{Keys}
use aegis_stream.Eviction.Plans.{
  Lane, soft, reconcile, hard, Item, Plan, Protected, plan_pass, schedules_again,
}
use aegis_stream.Eviction.Pressure.{Summary, Policy, Ratios}
use aegis_stream.Prelude.{
  ℕ, zero, suc, ◌+◌, String, Bool, true, false, not, Option, none, some, List, [], ◌∷◌, ◌++◌, leb,
  ltb, ◌==◌, if◌then◌else◌, length, map, max, nonzero_or, retain,
}

pub record Row : Type 0 where
  pub url : String
  pub byte_length : ℕ
  pub created_at : ℕ

-- The clock and the constants.
pub record Limits : Type 0 where
  pub now : ℕ
  pub ttl_sweep_min_age_ms : Option ℕ
  pub ttl_sweep_max_delete : Option ℕ
  pub max_eviction_batch : Option ℕ
  pub ratios : Ratios

abbrev pub item_of : Row → Item
item_of row = record { url = row.url; byte_length = row.byte_length }

abbrev pub bytes_of : List Row → ℕ
bytes_of [] = 0
bytes_of (row ∷ rows) = row.byte_length + bytes_of rows

-- `summarizeChunkStore`, but for its list, which is `map item_of rows`.
abbrev pub summarize_chunk_store : List Row → Summary
summarize_chunk_store rows = record { total_bytes = bytes_of rows; total_entries = length rows }

abbrev pub min_age_of : Limits → ℕ
min_age_of l = nonzero_or 0 l.ttl_sweep_min_age_ms

abbrev pub max_sweep_of : Limits → ℕ
max_sweep_of l = max 1 (nonzero_or 250 l.ttl_sweep_max_delete)

-- The rows that are swept, and those that are left.
pub record Swept : Type 0 where
  pub gone : List Row
  pub left : List Row

abbrev pub sweep_row : Row → Swept → Swept
sweep_row row s = record s { gone = row ∷ s.gone }

abbrev pub leave_row : Row → Swept → Swept
leave_row row s = record s { left = row ∷ s.left }

-- The cursor: as many rows as there may be, of those no younger than the cutoff.
unfoldable pub sweep_rows : ℕ → ℕ → ℕ → List Row → Swept
sweep_rows now min_age most [] = record { gone = []; left = [] }
sweep_rows now min_age zero (row ∷ rows) = record { gone = []; left = row ∷ rows }
sweep_rows now min_age (suc most) (row ∷ rows) = elim (leb (row.created_at + min_age) now) [
  | true ↦ sweep_row row (sweep_rows now min_age most rows)
  | false ↦ leave_row row (sweep_rows now min_age (suc most) rows)
]

-- Without a minimal age nothing is swept.
unfoldable pub age_sweep_cache_entries : Limits → List Row → Swept
unfolding sweep_rows
age_sweep_cache_entries l rows =
    if min_age_of l == 0
    then record { gone = []; left = rows }
    else sweep_rows l.now (min_age_of l) (max_sweep_of l) rows

-- Only the reconciling lane sweeps.
unfoldable pub sweep_in : Lane → Limits → List Row → Swept
unfolding age_sweep_cache_entries
sweep_in reconcile l rows = age_sweep_cache_entries l rows
sweep_in soft l rows = record { gone = []; left = rows }
sweep_in hard l rows = record { gone = []; left = rows }

-- `evictOldestEntries`
abbrev pub evict_oldest_entries : List String → List Row → List Row
evict_oldest_entries keys_to_delete = retain λ row. not (OrdSet.has row.url keys_to_delete)

abbrev pub urls_of : List Row → List String
urls_of = map λ row. row.url

-- What a pass leaves and does: the rows, the plan, the keys taken out of the registry in its calls,
-- and the schedulings of other passes, each forced or not.
pub record Done : Type 0 where
  pub rows : List Row
  pub swept : List Row
  pub plan : Option Plan
  pub unregistered : List (List String)
  pub schedules : List Bool

-- A call with no keys is not made.
abbrev pub call_with : List String → List (List String)
call_with [] = []
call_with (key ∷ keys) = (key ∷ keys) ∷ []

abbrev pub when : Bool → Bool → List Bool
when true force = force ∷ []
when false force = []

-- `plan` is `none` where the pass returns after its sweep.
unfoldable pub carry_out : Swept → Option Plan → Done
carry_out s none = record {
  rows = s.left;
  swept = s.gone;
  plan = none;
  unregistered = call_with (urls_of s.gone);
  schedules = [];
}
carry_out s (some p) = record {
  rows = evict_oldest_entries p.keys_to_delete s.left;
  swept = s.gone;
  plan = some p;
  unregistered = call_with (urls_of s.gone) ++ call_with p.keys_to_delete;
  schedules = when (ltb 0 (length s.gone)) false ++ when (schedules_again p) true;
}

-- The summary is made before the sweep; `order` is `sortEvictionCandidates` on its list.
unfoldable pub pass_body :
    Keys → Protected → Limits → Bool → Lane → Policy → (List Item → List Item) → List Row → Done
unfolding sweep_in carry_out
pass_body keys sets l force lane policy order rows = carry_out (sweep_in lane l rows) (
    plan_pass keys sets l.max_eviction_batch l.ratios force lane (summarize_chunk_store rows) policy
      (order (map item_of rows)))
