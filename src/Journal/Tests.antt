-- ===== src/Journal/Tests.antt =====
-- Runs of src/background/cache/eviction-journal.js on small inputs.
use aegis_stream.Prelude.Keys.{string_eq}
use aegis_stream.Prelude.OrdMap
use aegis_stream.Prelude.OrdMap.{OrdMap}
use aegis_stream.Prelude.{ℕ, ◌-◌, ◌≤◌, ◌≡◌, refl, String, false, none, some, List, [], ◌∷◌, All}
use aegis_stream.Journal.{
  Limits, EvictionRecord, Tab, journal_ttl_ms, prune_journal, resolve_playback_distance_for_url,
}
use aegis_stream.Journal.Ranking.{prune_journal-keeps, prune_journal-drops_oldest}
use aegis_stream.Journal.Distance.{PlacedWithin, resolve_playback_distance-nearest}

abbrev tiny : Limits
tiny = record {
  cache_eviction_journal_ttl_ms = some 1_000;
  cache_eviction_journal_max_entries = some 1;
  cache_store_invariant_crc_dedup_ms = none;
  cache_duplicate_write_window_ms = none;
}

abbrev evicted : String → ℕ → EvictionRecord
evicted key at = record {
  primary_key = key;
  invariant_key = none;
  evicted_at = at;
  byte_length = 7;
  crc = none;
  signed_distance = none;
  manifest_mapped = false;
  guard_ring_protected = false;
}

-- One entry is stale, and of the other two the newer stands first.
abbrev three : OrdMap String EvictionRecord
three =
    ("new", evicted "new" 5_000)
    ∷ ("stale", evicted "stale" 100)
    ∷ ("old", evicted "old" 4_900)
    ∷ []

three-IsMap : OrdMap.IsMap three
unfolding OrdMap.get string_eq
three-IsMap = (refl, (refl, (refl, tt)))

pruned_three : prune_journal tiny 5_000 three ≡ ("new", evicted "new" 5_000) ∷ []
unfolding prune_journal OrdMap.delete string_eq
pruned_three = refl

prune_journal-keeps_example :
    (OrdMap.get "new" three ≡ some (evicted "new" 5_000)) × (5_000 - journal_ttl_ms tiny ≤ 5_000)
unfolding prune_journal OrdMap.delete OrdMap.get string_eq
prune_journal-keeps_example =
    prune_journal-keeps tiny 5_000 three "new" {r = evicted "new" 5_000} three-IsMap refl

prune_journal-drops_oldest_example : 4_900 ≤ 5_000
unfolding prune_journal OrdMap.delete OrdMap.get string_eq
prune_journal-drops_oldest_example =
    prune_journal-drops_oldest tiny 5_000 three "old" "new" {v = evicted "old" 4_900}
      {r = evicted "new" 5_000} three-IsMap refl refl refl

abbrev two_tabs : List Tab
two_tabs =
    (record { segment_count = 50; anchor_index = some 10; index_of = λ url. some 40 })
    ∷ (record { segment_count = 50; anchor_index = some 45; index_of = λ url. some 40 })
    ∷ []

resolve_playback_distance-nearest_example :
    All (PlacedWithin "seg" (resolve_playback_distance_for_url "seg" two_tabs)) two_tabs
resolve_playback_distance-nearest_example = resolve_playback_distance-nearest "seg" two_tabs
