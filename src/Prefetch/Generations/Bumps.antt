-- ===== src/Prefetch/Generations/Bumps.antt =====
-- When src/background/prefetch/state/network-generation.js moves a generation, and the downloads under it.
use aegis_stream.Prelude.Keys.{text_eq}
use aegis_stream.Prelude.OrdSet
use aegis_stream.Prelude.Texts.{codes}
use aegis_stream.Prelude.{
  ℕ, ◌+◌, String, Bool, true, false, not, Option, none, some, List, [], ◌∷◌, ltb, ◌==◌,
  if◌then◌else◌,
}
use aegis_stream.Prefetch.Generations.{
  Text, Tab, Env, or_zero, sync_legacy_network_generation, prefetch_registry_key,
  is_destructive_delegate_source, is_churn_playback_bump_throttled,
}

abbrev pub bump_playlist_generation : Tab → ℕ × Tab
bump_playlist_generation t =
    let next = or_zero t.playlist_generation + 1 in
    (next, record t { playlist_generation = some next })

abbrev pub generation_or : ℕ → Option ℕ → ℕ
generation_or current none = current
generation_or current (some generation) = generation

-- The end of `broadcastDelegatedPrefetchAbort`: the message, for a tab whose id is a number.
abbrev pub send_abort : Option ℕ → Option ℕ → Option (List Text) → Tab → ℕ × Tab
send_abort none generation keep_urls t = sync_legacy_network_generation t
send_abort (some tab_id) generation keep_urls t =
    let (current, synced) = sync_legacy_network_generation t in
    let sent = generation_or current generation in
    (
      sent,
      record synced {
        aborts = record { generation = sent; keep_urls = keep_urls } ∷ synced.aborts;
      },
    )

-- `Number(tabState.playbackGeneration) || Number(tabState.networkGeneration) || 0`
abbrev pub generation_before : Tab → ℕ
generation_before t = elim t.playback_generation [
  | none ↦ or_zero t.network_generation
  | some playback ↦ if playback == 0 then or_zero t.network_generation else playback
]

abbrev pub note_bump : Bool → Tab → Tab
note_bump throttled t = record t { bump_notes = throttled ∷ t.bump_notes }

-- The generation itself, from its number to the note.
unfoldable pub advance : Env → Option ℕ → Option (List Text) → Tab → ℕ × Tab
advance env tab_id keep_urls t =
    let next = generation_before t + 1 in
    let (sent, broadcast) = send_abort tab_id (some next) keep_urls (record t {
      last_playback_generation_bump_at = env.now;
      playback_generation = some next;
      network_generation = some next;
      prefetch_download_registry = [];
    }) in
    (next, note_bump false broadcast)

unfoldable pub bump_playback_generation :
    Env → Option ℕ → Option Text → Option (List Text) → Tab → ℕ × Tab
bump_playback_generation env tab_id reason keep_urls t =
    if not (is_destructive_delegate_source env reason t)
    then sync_legacy_network_generation (bump_playlist_generation t).1
    else if is_churn_playback_bump_throttled env t
    then sync_legacy_network_generation (note_bump true t)
    else advance env tab_id keep_urls t

abbrev pub or_label : Option Text → String → Text
or_label none label = codes label
or_label (some []) label = codes label
or_label (some (c ∷ cs)) label = c ∷ cs

unfoldable pub broadcast_delegated_prefetch_abort :
    Env → Option ℕ → Bool → Option ℕ → Option Text → Option (List Text) → Tab → ℕ × Tab
broadcast_delegated_prefetch_abort env none bumps generation reason keep_urls t =
    sync_legacy_network_generation t
broadcast_delegated_prefetch_abort env (some tab_id) true generation reason keep_urls t =
    bump_playback_generation env (some tab_id) (some (or_label reason "abort-broadcast")) none
      (sync_legacy_network_generation t).1
broadcast_delegated_prefetch_abort env (some tab_id) false generation reason keep_urls t =
    send_abort (some tab_id) generation keep_urls t

abbrev pub note_target : Option ℕ → Tab → Tab
note_target none t = t
note_target (some target_index) t = record t { last_observed_index = some target_index }

-- Whether the generation after the bump is a later one.
unfoldable pub after_bump : ℕ → ℕ × Tab → Bool × Tab
after_bump before (generation, bumped) =
    let (after, settled) = sync_legacy_network_generation bumped in (ltb before after, settled)

unfoldable pub evaluate_lifecycle_advancement :
    Env → Option ℕ → Option Text → Option ℕ → Tab → Bool × Tab
evaluate_lifecycle_advancement env tab_id source target_index t =
    if not (is_destructive_delegate_source env source t)
    then (false, note_target target_index (bump_playlist_generation t).1)
    else (let (before, synced) = sync_legacy_network_generation t in
        after_bump before (bump_playback_generation env tab_id source none synced))

-- A message with no generation is current.
abbrev pub is_current_playback_generation : Option ℕ → Tab → Bool × Tab
is_current_playback_generation none t = (true, t)
is_current_playback_generation (some generation) t =
    let (current, synced) = sync_legacy_network_generation t in (generation == current, synced)

unfoldable pub try_register_prefetch_download : Text → Tab → Bool × Tab
try_register_prefetch_download [] t = (false, t)
try_register_prefetch_download (c ∷ cs) t =
    let (current, synced) = sync_legacy_network_generation t in
    let key = prefetch_registry_key current (c ∷ cs) in
    if OrdSet.has key synced.prefetch_download_registry then (false, synced) else (
      true,
      record synced {
        prefetch_download_registry = OrdSet.add key synced.prefetch_download_registry;
      },
    )

unfoldable pub release_prefetch_download : Text → Tab → Tab
release_prefetch_download [] t = t
release_prefetch_download (c ∷ cs) t =
    let (current, synced) = sync_legacy_network_generation t in
    record synced {
      prefetch_download_registry =
          OrdSet.delete (prefetch_registry_key current (c ∷ cs)) synced.prefetch_download_registry;
    }
