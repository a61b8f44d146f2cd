-- ===== src/Journal/Recording.antt =====
-- What src/background/cache/eviction-journal.js writes: evictions, misses, and stored contents.
use aegis_stream.Prelude.Keys.{string_eq}
use aegis_stream.Prelude.OrdMap
use aegis_stream.Prelude.OrdMap.{OrdMap}
use aegis_stream.Prelude.{
  ◌≡◌, arith, not, ℕ, ◌+◌, ◌-◌, ◌/◌, String, Bool, false, Option, none, some, List, [], ◌∷◌, ltb,
  if◌then◌else◌, length, ℤ,
}
use aegis_stream.Journal.{
  Limits, EvictionRecord, Counters, Journal, Env, store_dedup_ttl_ms,
  resolve_playback_distance_for_url, journal_lookup_keys, prune_journal, fresh_times,
  should_log_recent_evicted_miss, lookup_eviction_record,
}

-- An evicted chunk; `crc` is `item.crc || null`.
pub record Item : Type 0 where
  pub url : Option String
  pub byte_length : ℕ
  pub crc : Option String

unfoldable pub set_all :
    List String → EvictionRecord → OrdMap String EvictionRecord → OrdMap String EvictionRecord
set_all [] r m = m
set_all (key ∷ keys) r m = set_all keys r (OrdMap.set key r m)

abbrev invariant_key_of : Env → String → Option String
invariant_key_of env normalized = elim env.build_media_invariant_key [
  | none ↦ none
  | some build ↦ build normalized
]

abbrev pub entry_for : Env → String → String → Item → EvictionRecord
entry_for env url normalized item =
    let dist = resolve_playback_distance_for_url url env.tabs in
    record {
      primary_key = url;
      invariant_key = invariant_key_of env normalized;
      evicted_at = env.now;
      byte_length = item.byte_length;
      crc = item.crc;
      signed_distance = dist.signed_distance;
      manifest_mapped = dist.manifest_mapped;
      guard_ring_protected = env.is_guard_ring_protected url;
    }

abbrev write_entry : Env → String → EvictionRecord → Journal → Journal
write_entry env url entry j = record j {
  eviction_journal = set_all (journal_lookup_keys env url) entry j.eviction_journal;
  counters = record j.counters {
    evicted_without_manifest_map =
        j.counters.evicted_without_manifest_map + (if entry.manifest_mapped then 0 else 1);
  };
}

-- The body of the loop. An item without a URL, or whose URL is only a hash, is passed over.
unfoldable pub record_item : Env → Item → Journal → Journal
unfolding set_all journal_lookup_keys resolve_playback_distance_for_url
record_item env item j = elim item.url [
  | none ↦ j
  | some url ↦ elim (env.strip_hash url) [
    | none ↦ j
    | some normalized ↦ write_entry env url (entry_for env url normalized item) j
  ]
]

unfoldable pub record_items : Env → List Item → Journal → Journal
unfolding record_item
record_items env [] j = j
record_items env (item ∷ items) j = record_items env items (record_item env item j)

unfoldable pub record_evicted_chunks : Env → List Item → Journal → Journal
unfolding record_items prune_journal
record_evicted_chunks env [] j = j
record_evicted_chunks env (item ∷ items) j =
    let k = record_items env (item ∷ items) j in
    record k {
      eviction_journal = prune_journal env.limits env.now k.eviction_journal;
      counters = record k.counters {
        cache_chunks_evicted = k.counters.cache_chunks_evicted + length (item ∷ items);
      };
    }

pub record Miss : Type 0 where
  pub evicted_seconds_ago : ℕ
  pub byte_length : ℕ
  pub signed_distance : Option ℤ
  pub manifest_mapped : Bool
  pub invariant_key : Option String

-- `record.invariantKey || record.primaryKey || url`, where the primary key is never empty.
abbrev pub key_label : EvictionRecord → String
key_label r = elim r.invariant_key [ some key ↦ key | none ↦ r.primary_key ]

-- `Math.round(ageMs / 1000)`
abbrev pub age_sec : ℕ → EvictionRecord → ℕ
age_sec now r = (now - r.evicted_at + 500) / 1_000

abbrev pub count_miss : EvictionRecord → Bool → Counters → Counters
count_miss r logs c = record c {
  recently_evicted_misses = c.recently_evicted_misses + 1;
  evicted_miss_unmapped = c.evicted_miss_unmapped + (if r.manifest_mapped then 0 else 1);
  logged = c.logged + (if logs then 1 else 0);
}

unfoldable pub note_found : Env → Option EvictionRecord × Journal → Option Miss × Journal
unfolding should_log_recent_evicted_miss
note_found env (none, j) = (
  none,
  record j {
    counters = record j.counters {
      cache_miss_never_stored = j.counters.cache_miss_never_stored + 1;
    };
  },
)
note_found env (some r, j) =
    let (logs, times) =
      should_log_recent_evicted_miss env.now (key_label r) j.recent_evicted_miss_log_at in
    (
      some (record {
        evicted_seconds_ago = age_sec env.now r;
        byte_length = r.byte_length;
        signed_distance = r.signed_distance;
        manifest_mapped = r.manifest_mapped;
        invariant_key = r.invariant_key;
      }),
      record j { recent_evicted_miss_log_at = times; counters = count_miss r logs j.counters },
    )

unfoldable pub note_recently_evicted_miss : Env → String → Journal → Option Miss × Journal
unfolding lookup_eviction_record note_found
note_recently_evicted_miss env url j = note_found env (lookup_eviction_record env url j)

unfoldable pub prune_store_dedup : Limits → ℕ → OrdMap String ℕ → OrdMap String ℕ
prune_store_dedup l now stored = fresh_times (now - store_dedup_ttl_ms l) stored

abbrev stored_recently : ℕ → ℕ → Option ℕ → Bool
stored_recently now ttl none = false
stored_recently now ttl (some at) = ltb (now - at) ttl

unfoldable pub should_skip_duplicate_store :
    Limits → ℕ → Option String → OrdMap String ℕ → Bool × OrdMap String ℕ
unfolding prune_store_dedup
should_skip_duplicate_store l now none stored = (false, stored)
should_skip_duplicate_store l now (some key) stored =
    let kept = prune_store_dedup l now stored in
    (stored_recently now (store_dedup_ttl_ms l) (OrdMap.get key kept), kept)

unfoldable pub mark_store_dedup_key : Limits → ℕ → Option String → OrdMap String ℕ → OrdMap String ℕ
unfolding prune_store_dedup
mark_store_dedup_key l now none stored = stored
mark_store_dedup_key l now (some key) stored = OrdMap.set key now (prune_store_dedup l now stored)

unfoldable pub reset_eviction_journal : Journal → Journal
reset_eviction_journal j = record j {
  eviction_journal = [];
  store_dedup_by_invariant_crc = [];
  recent_evicted_miss_log_at = [];
}

-- After `markStoreDedupKey` at time `t`, at a later time a store of the same content is to be skipped
-- exactly if less than the dedup time has passed, whatever was stored before.
pub mark-should_skip :
    (l : Limits) (t now : ℕ) (key : String) (stored : OrdMap String ℕ)
    → OrdMap.IsMap stored
    → (should_skip_duplicate_store l now (some key) (mark_store_dedup_key l t (some key) stored)).0
      ≡ ltb (now - t) (store_dedup_ttl_ms l)
unfolding should_skip_duplicate_store mark_store_dedup_key prune_store_dedup
mark-should_skip l t now key stored h =
    let kept = prune_store_dedup l t stored in
    let old = now - store_dedup_ttl_ms l in
    let found =
      OrdMap.get-retain (λ (k, at). not (ltb at old)) key (OrdMap.set key t kept)
        (OrdMap.set-IsMap key t kept
          (OrdMap.retain-IsMap (λ (k, at). not (ltb at (t - store_dedup_ttl_ms l))) stored h)) in
    rw (found, OrdMap.get-set_self key t kept) (ground arith)
