-- ===== src/Journal.antt =====
-- src/background/cache/eviction-journal.js: what was evicted lately, and what was stored lately.
--
-- A key that is missing or empty is `none`. The counters are those that the code bumps. The log
-- lines are counted in `logged`.
pub mod Recording
pub mod Ranking
pub mod Distance
mod Tests
use aegis_stream.Prelude.Keys.{◌===◌, string_eq}
use aegis_stream.Prelude.OrdMap
use aegis_stream.Prelude.OrdMap.{OrdMap}
use aegis_stream.Prelude.OrdSet
use aegis_stream.Prelude.{
  ℕ, zero, suc, ◌+◌, ◌-◌, ◌*◌, ◌/◌, String, Bool, true, false, not, ◌&&◌, ◌||◌, Option, none, some,
  List, [], ◌∷◌, ltb, leb, ◌==◌, if◌then◌else◌, length, take, retain, nonzero_or, ℤ, pos, negsuc,
}

pub record Limits : Type 0 where
  pub cache_eviction_journal_ttl_ms : Option ℕ
  pub cache_eviction_journal_max_entries : Option ℕ
  pub cache_store_invariant_crc_dedup_ms : Option ℕ
  pub cache_duplicate_write_window_ms : Option ℕ

abbrev pub journal_ttl_ms : Limits → ℕ
journal_ttl_ms l = nonzero_or (10 * 60 * 1_000) l.cache_eviction_journal_ttl_ms

abbrev pub max_journal_entries : Limits → ℕ
max_journal_entries l = nonzero_or 800 l.cache_eviction_journal_max_entries

abbrev pub store_dedup_ttl_ms : Limits → ℕ
store_dedup_ttl_ms l =
    nonzero_or (nonzero_or 20_000 l.cache_duplicate_write_window_ms)
      l.cache_store_invariant_crc_dedup_ms

abbrev pub recent_eviction_log_dedupe_ms : ℕ
recent_eviction_log_dedupe_ms = 3_000

pub record EvictionRecord : Type 0 where
  pub primary_key : String
  pub invariant_key : Option String
  pub evicted_at : ℕ
  pub byte_length : ℕ
  pub crc : Option String
  pub signed_distance : Option ℤ
  pub manifest_mapped : Bool
  pub guard_ring_protected : Bool

pub record Counters : Type 0 where
  pub evicted_without_manifest_map : ℕ
  pub cache_chunks_evicted : ℕ
  pub cache_miss_never_stored : ℕ
  pub recently_evicted_misses : ℕ
  pub evicted_miss_unmapped : ℕ
  pub logged : ℕ

pub record Journal : Type 0 where
  pub eviction_journal : OrdMap String EvictionRecord
  pub store_dedup_by_invariant_crc : OrdMap String ℕ
  pub recent_evicted_miss_log_at : OrdMap String ℕ
  pub counters : Counters

-- A tab's playlist. `index_of` is `resolveSegmentIndexInManifest` of it.
pub record Tab : Type 0 where
  pub segment_count : ℕ
  pub anchor_index : Option ℕ
  pub index_of : String → Option ℕ

-- The functions of other scripts, the tabs and the clock.
pub record Env : Type 0 where
  pub limits : Limits
  pub strip_hash : String → Option String
  pub build_cache_key_variants : String → List String
  pub build_media_invariant_key : Option (String → Option String)
  pub is_guard_ring_protected : String → Bool
  pub tabs : List Tab
  pub now : ℕ

pub record Best : Type 0 where
  pub manifest_mapped : Bool
  pub signed_distance : Option ℤ
  pub segment_index : Option ℕ
  pub anchor_index : Option ℕ

abbrev pub subtract : ℕ → ℕ → ℤ
subtract a b = if leb b a then pos (a - b) else negsuc (b - a - 1)

-- `Math.abs`
abbrev pub magnitude : ℤ → ℕ
magnitude (pos n) = n
magnitude (negsuc n) = n + 1

-- The index of the segment and of the anchor, for a tab that is asked and knows the URL.
abbrev pub place_in : String → Tab → Option (ℕ × ℕ)
place_in url tab = elim tab.anchor_index [
  | none ↦ none
  | some anchor ↦
      if tab.segment_count == 0
      then none
      else elim (tab.index_of url) [ none ↦ none | some index ↦ some (index, anchor) ]
]

abbrev pub is_nearer : ℤ → Option ℤ → Bool
is_nearer d none = true
is_nearer d (some best) = ltb (magnitude d) (magnitude best)

abbrev pub nearer : Best → Option (ℕ × ℕ) → Best
nearer best none = best
nearer best (some (index, anchor)) =
    if not best.manifest_mapped || is_nearer (subtract index anchor) best.signed_distance
    then record {
      manifest_mapped = true;
      signed_distance = some (subtract index anchor);
      segment_index = some index;
      anchor_index = some anchor;
    }
    else best

abbrev pub unmapped : Best
unmapped = record {
  manifest_mapped = false;
  signed_distance = none;
  segment_index = none;
  anchor_index = none;
}

unfoldable pub resolve_over : String → List Tab → Best → Best
resolve_over url [] best = best
resolve_over url (tab ∷ tabs) best = resolve_over url tabs (nearer best (place_in url tab))

unfoldable pub resolve_playback_distance_for_url : String → List Tab → Best
unfolding resolve_over
resolve_playback_distance_for_url url tabs = resolve_over url tabs unmapped

abbrev invariant_of : Env → String → Option String
invariant_of env normalized = elim env.build_media_invariant_key [
  | none ↦ none
  | some build ↦ build normalized
]

abbrev add_key : Option String → List String → List String
add_key none keys = keys
add_key (some key) keys = OrdSet.add key keys

unfoldable pub journal_lookup_keys : Env → String → List String
journal_lookup_keys env url = elim (env.strip_hash url) [
  | none ↦ []
  | some normalized ↦
      add_key (invariant_of env normalized)
        (OrdSet.add_all (env.build_cache_key_variants normalized) (normalized ∷ []))
]

-- `!record?.evictedAt || record.evictedAt < cutoff`
abbrev pub is_stale : ℕ → EvictionRecord → Bool
is_stale cutoff r = r.evicted_at == 0 || ltb r.evicted_at cutoff

-- `ranked`: a stable sort by the time of eviction.
abbrev pub rank_in :
    String → EvictionRecord → OrdMap String EvictionRecord → OrdMap String EvictionRecord
rank_in key r [] = (key, r) ∷ []
rank_in key r ((k, s) ∷ m) =
    let rest = rank_in key r m in
    if leb r.evicted_at s.evicted_at then (key, r) ∷ (k, s) ∷ m else (k, s) ∷ rest

abbrev pub rank : OrdMap String EvictionRecord → OrdMap String EvictionRecord
rank [] = []
rank ((key, r) ∷ m) = rank_in key r (rank m)

abbrev pub delete_ranked :
    OrdMap String EvictionRecord → OrdMap String EvictionRecord → OrdMap String EvictionRecord
delete_ranked [] m = m
delete_ranked ((key, r) ∷ ranked) m = delete_ranked ranked (OrdMap.delete key m)

abbrev pub fresh_entries : Limits → ℕ → OrdMap String EvictionRecord → OrdMap String EvictionRecord
fresh_entries l now = retain λ (key, r). not (is_stale (now - journal_ttl_ms l) r)

unfoldable pub prune_journal :
    Limits → ℕ → OrdMap String EvictionRecord → OrdMap String EvictionRecord
prune_journal l now m =
    let fresh = fresh_entries l now m in
    delete_ranked (take (length fresh - max_journal_entries l) (rank fresh)) fresh

abbrev pub fresh_times : ℕ → OrdMap String ℕ → OrdMap String ℕ
fresh_times cutoff = retain λ (key, at). not (ltb at cutoff)

abbrev time_or_zero : Option ℕ → ℕ
time_or_zero none = 0
time_or_zero (some at) = at

-- Whether to log, and the times of the log lines.
unfoldable pub should_log_recent_evicted_miss :
    ℕ → String → OrdMap String ℕ → Bool × OrdMap String ℕ
should_log_recent_evicted_miss now key logs =
    let kept = fresh_times (now - recent_eviction_log_dedupe_ms * 4) logs in
    if ltb (now - time_or_zero (OrdMap.get key kept)) recent_eviction_log_dedupe_ms
    then (false, kept)
    else (true, OrdMap.set key now kept)

abbrev pub find_first : List String → OrdMap String EvictionRecord → Option EvictionRecord
find_first [] m = none
find_first (key ∷ keys) m = elim (OrdMap.get key m) [ some r ↦ some r | none ↦ find_first keys m ]

unfoldable pub lookup_eviction_record : Env → String → Journal → Option EvictionRecord × Journal
unfolding prune_journal journal_lookup_keys
lookup_eviction_record env url j =
    let pruned = prune_journal env.limits env.now j.eviction_journal in
    (find_first (journal_lookup_keys env url) pruned, record j { eviction_journal = pruned })
