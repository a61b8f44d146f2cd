-- ===== src/Eviction/Guards.antt =====
-- src/background/cache/guard-ring.js: the URLs that eviction must leave, near a playhead or in use.
use aegis_stream.Prelude.Keys.{string_eq}
use aegis_stream.Prelude.OrdSet
use aegis_stream.Prelude.{
  ℕ, ◌+◌, ◌-◌, ◌/◌, String, Bool, true, false, ◌&&◌, ◌||◌, Option, none, some, List, [], ◌∷◌, ltb,
  if◌then◌else◌, length, take, drop, min, max, nonzero_or,
}

-- The key functions of another script; `strip_hash` gives `none` for an empty text.
pub record Keys : Type 0 where
  pub strip_hash : String → Option String
  pub build_cache_key_variants : String → List String

-- What the code reads of a tab, with what other scripts say of it: whether it is in the grace of a
-- switch of variants or in a train of scrubs, and how far its window is widened.
pub record Tab : Type 0 where
  pub segments : List String
  pub anchor_index : Option ℕ
  pub predicted_anchor_index : Option ℕ
  pub predicted_anchor_at : ℕ
  pub teleport_mode_until : ℕ
  pub teleport_target_index : Option ℕ
  pub seek_churn_aggressive_until : ℕ
  pub is_in_variant_switch_grace : Bool
  pub is_in_scrubbing_train : Bool
  pub hit_rate_boost : ℕ

-- The clock and the constants.
pub record Env : Type 0 where
  pub now : ℕ
  pub past_segments : Option ℕ
  pub future_segments : Option ℕ
  pub seek_churn_past : Option ℕ
  pub seek_churn_future : Option ℕ
  pub anchor_signal_fresh_ms : Option ℕ

abbrev pub add_url_to_protected_set : Keys → String → List String → List String
add_url_to_protected_set keys url protected_set = elim (keys.strip_hash url) [
  | none ↦ protected_set
  | some normalized ↦
      OrdSet.add_all (keys.build_cache_key_variants normalized)
        (OrdSet.add normalized protected_set)
]

unfoldable pub add_urls : Keys → List String → List String → List String
add_urls keys [] protected_set = protected_set
add_urls keys (url ∷ urls) protected_set =
    add_urls keys urls (add_url_to_protected_set keys url protected_set)

abbrev pub is_tab_in_seek_churn_aggressive : Env → Tab → Bool
is_tab_in_seek_churn_aggressive env t = ltb env.now t.seek_churn_aggressive_until

abbrev pub is_teleporting : Env → Tab → Bool
is_teleporting env t = ltb env.now t.teleport_mode_until

abbrev pub is_anchor_unstable : Env → Tab → Bool
is_anchor_unstable env t =
    is_tab_in_seek_churn_aggressive env t
    || (is_teleporting env t || (t.is_in_variant_switch_grace || t.is_in_scrubbing_train))

unfoldable pub past_of : Env → Tab → ℕ
past_of env t =
    let default_past = nonzero_or 2 env.past_segments in
    (if is_anchor_unstable env t
      then max default_past (nonzero_or 5 env.seek_churn_past)
      else default_past)
    + (t.hit_rate_boost + 1) / 2

unfoldable pub future_of : Env → Tab → ℕ
future_of env t =
    let default_future = nonzero_or 12 env.future_segments in
    (if is_anchor_unstable env t
      then max default_future (nonzero_or 24 env.seek_churn_future)
      else default_future)
    + t.hit_rate_boost

abbrev pub fresh_prediction : Env → Tab → List ℕ
fresh_prediction env t = elim t.predicted_anchor_index [
  | none ↦ []
  | some predicted ↦
      if t.is_in_scrubbing_train
        && ltb (env.now - t.predicted_anchor_at) (nonzero_or 3_000 env.anchor_signal_fresh_ms)
      then predicted ∷ []
      else []
]

-- The anchors whose windows are protected, of a tab with an anchor.
unfoldable pub anchors_of : Env → Tab → ℕ → List ℕ
anchors_of env t anchor = elim t.teleport_target_index [
  | none ↦ anchor ∷ fresh_prediction env t
  | some target ↦ if is_teleporting env t then target ∷ [] else anchor ∷ fresh_prediction env t
]

-- The segments from `start` to `end` of the loop; it has none where `start` is past `end`.
unfoldable pub window_of : Env → Tab → ℕ → List String
unfolding past_of future_of
window_of env t anchor =
    let start = anchor - past_of env t in
    let end = min (length t.segments - 1) (anchor + future_of env t) in
    take (end + 1 - start) (drop start t.segments)

unfoldable pub add_windows : Keys → Env → Tab → List ℕ → List String → List String
add_windows keys env t [] protected_set = protected_set
add_windows keys env t (anchor ∷ anchors) protected_set =
    add_windows keys env t anchors (add_urls keys (window_of env t anchor) protected_set)

abbrev pub anchors_or_none : Env → Tab → List ℕ
anchors_or_none env t = elim t.anchor_index [ none ↦ [] | some anchor ↦ anchors_of env t anchor ]

abbrev pub is_empty : List String → Bool
is_empty [] = true
is_empty (s ∷ ss) = false

abbrev pub add_tab : Keys → Env → Tab → List String → List String
add_tab keys env t protected_set =
    if is_empty t.segments
    then protected_set
    else add_windows keys env t (anchors_or_none env t) protected_set

unfoldable pub add_tabs : Keys → Env → List Tab → List String → List String
add_tabs keys env [] protected_set = protected_set
add_tabs keys env (t ∷ ts) protected_set = add_tabs keys env ts (add_tab keys env t protected_set)

-- The tabs are the values of `state.playlistByTab`.
unfoldable pub collect_guard_ring_protected_urls : Keys → Env → List Tab → List String
unfolding add_tabs
collect_guard_ring_protected_urls keys env tabs = add_tabs keys env tabs []

abbrev pub held_urls : List (String × ℕ) → List String
held_urls [] = []
held_urls ((url, consumers) ∷ rest) =
    let more = held_urls rest in if ltb 0 consumers then url ∷ more else more

-- Of the prefetches in flight: the URL, and how many consumers it has.
unfoldable pub collect_consumer_protected_urls : Keys → List (String × ℕ) → List String
unfolding add_urls
collect_consumer_protected_urls keys inflight = add_urls keys (held_urls inflight) []

unfoldable pub collect_tier_a_protected_urls :
    Keys → Env → List Tab → List (String × ℕ) → List String
unfolding collect_guard_ring_protected_urls collect_consumer_protected_urls
collect_tier_a_protected_urls keys env tabs inflight =
    OrdSet.add_all (collect_consumer_protected_urls keys inflight)
      (collect_guard_ring_protected_urls keys env tabs)

abbrev pub any_in : List String → List String → Bool
any_in [] set = false
any_in (v ∷ vs) set = OrdSet.has v set || any_in vs set

unfoldable pub is_url_guard_ring_protected : Keys → String → List String → Bool
is_url_guard_ring_protected keys url set = elim (keys.strip_hash url) [
  | none ↦ false
  | some normalized ↦
      OrdSet.has normalized set || any_in (keys.build_cache_key_variants normalized) set
]
