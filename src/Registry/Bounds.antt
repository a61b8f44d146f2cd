-- ===== src/Registry/Bounds.antt =====
-- The two key sets of src/page/cache/cache-registry.js stay sets of bounded size.
use aegis_stream.Prelude.Keys.{string_eq}
use aegis_stream.Prelude.OrdSet
use aegis_stream.Prelude.{
  ℕ, ◌-◌, ◌≤◌, String, Bool, true, false, ◌||◌, Option, List, [], ◌∷◌, ◌==◌, if◌then◌else◌, length,
  length-drop_excess, arith, Bool-cases, inl, inr,
}
use aegis_stream.Registry.Keys.{register_key_variants, normalize_all}
use aegis_stream.Registry.{
  Registry, Env, Payload, max_local_registry_keys, max_inflight_intent_keys, trim,
  is_replace_authorized, merge_keys, apply_cache_registry_sync, note_store_intent,
  note_local_cache_key, remove_local_cache_key, has_localized, note_prefetch_intent,
  note_prefetch_intent_batch, clear_prefetch_intent, clear_prefetch_intent_batch,
  note_registry_false_negative,
}

-- A set with a limit on its size.
pub record Limited (most : ℕ) (keys : List String) : Type 0 where
  pub distinct : OrdSet.IsDistinct keys
  pub few : length keys ≤ most

pub record Inv (r : Registry) : Type 0 where
  pub local : Limited max_local_registry_keys r.localized_cache_keys
  pub intent : Limited max_inflight_intent_keys r.inflight_cache_intent_keys

trim-Limited :
    (most : ℕ) (keys : List String) → OrdSet.IsDistinct keys → Limited most (trim most keys)
unfolding trim
trim-Limited most keys h = record {
  distinct = OrdSet.drop-IsDistinct (length keys - most) keys h;
  few = length-drop_excess most keys;
}

delete_all-Limited :
    (most : ℕ) (gone keys : List String)
    → Limited most keys
    → Limited most (OrdSet.delete_all gone keys)
delete_all-Limited most gone keys h = record {
  distinct = OrdSet.delete_all-IsDistinct gone keys h.distinct;
  few = omega (arith, h.few, OrdSet.length-delete_all gone keys);
}

merge_keys-IsDistinct :
    (authorized : Bool) (incoming removed keys : List String)
    → OrdSet.IsDistinct keys
    → OrdSet.IsDistinct (merge_keys authorized incoming removed keys)
unfolding merge_keys
merge_keys-IsDistinct true incoming removed keys h = OrdSet.add_all-IsDistinct incoming [] tt
merge_keys-IsDistinct false incoming removed keys h =
    OrdSet.delete_all-IsDistinct removed (OrdSet.add_all incoming keys)
      (OrdSet.add_all-IsDistinct incoming keys h)

sync-Inv :
    (env : Env) (payload : Payload) (r : Registry)
    → Inv r
    → Inv (apply_cache_registry_sync env payload r)
unfolding apply_cache_registry_sync
sync-Inv env payload r i = elim (Bool-cases env.bridge_ready) [
  | inr p ↦ rw (p, apply_cache_registry_sync) i
  | inl p ↦
      let merged =
        merge_keys (is_replace_authorized payload) (normalize_all env.resolvers payload.keys)
          (normalize_all env.resolvers payload.removed_keys) r.localized_cache_keys in
      let sound =
        merge_keys-IsDistinct (is_replace_authorized payload)
          (normalize_all env.resolvers payload.keys)
          (normalize_all env.resolvers payload.removed_keys) r.localized_cache_keys
          i.local.distinct in
      rw (p, apply_cache_registry_sync)
        (record { local = trim-Limited max_local_registry_keys merged sound; intent = i.intent })
]

intend-Limited :
    (variants keys : List String)
    → Limited max_inflight_intent_keys keys
    → Limited max_inflight_intent_keys
        (trim max_inflight_intent_keys (OrdSet.add_all variants keys))
intend-Limited variants keys h =
    trim-Limited max_inflight_intent_keys (OrdSet.add_all variants keys)
      (OrdSet.add_all-IsDistinct variants keys h.distinct)

note_local-Inv :
    (env : Env) (url : Option String) (r : Registry) → Inv r → Inv (note_local_cache_key env url r)
unfolding note_local_cache_key
note_local-Inv env url r i =
    let variants = register_key_variants env.resolvers url in
    record {
      local = choose (length variants == 0) variants;
      intent =
          delete_all-Limited max_inflight_intent_keys variants r.inflight_cache_intent_keys
            i.intent;
    }
  where
    choose :
        (b : Bool) (variants : List String)
        → Limited max_local_registry_keys (
            if b
            then r.localized_cache_keys
            else trim max_local_registry_keys (OrdSet.add_all variants r.localized_cache_keys))
    choose true variants = i.local
    choose false variants =
        trim-Limited max_local_registry_keys (OrdSet.add_all variants r.localized_cache_keys)
          (OrdSet.add_all-IsDistinct variants r.localized_cache_keys i.local.distinct)

note_prefetch-Inv :
    (env : Env) (url : Option String) (r : Registry) → Inv r → Inv (note_prefetch_intent env url r)
unfolding note_prefetch_intent
note_prefetch-Inv env url r i =
    let variants = register_key_variants env.resolvers url in
    elim (Bool-cases
      (length variants == 0 || has_localized env.resolvers url r.inflight_cache_intent_keys)) [
        | inl p ↦ rw (p, note_prefetch_intent) i
        | inr p ↦
            rw (p, note_prefetch_intent)
              (record {
                local = i.local;
                intent = intend-Limited variants r.inflight_cache_intent_keys i.intent;
              })
      ]

note_batch-Inv :
    (env : Env) (urls : List (Option String)) (r : Registry)
    → Inv r
    → Inv (note_prefetch_intent_batch env urls r)
unfolding note_prefetch_intent_batch
note_batch-Inv env [] r i = i
note_batch-Inv env (url ∷ urls) r i =
    note_batch-Inv env urls (note_prefetch_intent env url r) (note_prefetch-Inv env url r i)

clear-Inv :
    (env : Env) (url : Option String) (r : Registry) → Inv r → Inv (clear_prefetch_intent env url r)
unfolding clear_prefetch_intent
clear-Inv env url r i = record {
  local = i.local;
  intent =
      delete_all-Limited max_inflight_intent_keys (register_key_variants env.resolvers url)
        r.inflight_cache_intent_keys i.intent;
}

clear_batch-Inv :
    (env : Env) (urls : List (Option String)) (r : Registry)
    → Inv r
    → Inv (clear_prefetch_intent_batch env urls r)
unfolding clear_prefetch_intent_batch
clear_batch-Inv env [] r i = i
clear_batch-Inv env (url ∷ urls) r i =
    clear_batch-Inv env urls (clear_prefetch_intent env url r) (clear-Inv env url r i)

-- A call that changes the registry, with the flags, the clock and the resolvers that it finds.
pub data Change : Type 0 where
  syncs : Payload → Change
  stores notes removes intends clears : Option String → Change
  intends_all clears_all : List (Option String) → Change
  distrusts : Change

abbrev pub change : Env → Change → Registry → Registry
change env (syncs payload) r = apply_cache_registry_sync env payload r
change env (stores url) r = note_store_intent env url r
change env (notes url) r = note_local_cache_key env url r
change env (removes url) r = remove_local_cache_key env url r
change env (intends url) r = note_prefetch_intent env url r
change env (clears url) r = clear_prefetch_intent env url r
change env (intends_all urls) r = note_prefetch_intent_batch env urls r
change env (clears_all urls) r = clear_prefetch_intent_batch env urls r
change env distrusts r = note_registry_false_negative env r

abbrev pub change_all : List (Env × Change) → Registry → Registry
change_all [] r = r
change_all ((env, c) ∷ cs) r = change_all cs (change env c r)

change-Inv : (env : Env) (c : Change) (r : Registry) → Inv r → Inv (change env c r)
unfolding note_store_intent remove_local_cache_key note_registry_false_negative
change-Inv env (syncs payload) r i = sync-Inv env payload r i
change-Inv env (stores url) r i = record {
  local = i.local;
  intent =
      intend-Limited (register_key_variants env.resolvers url) r.inflight_cache_intent_keys
        i.intent;
}
change-Inv env (notes url) r i = note_local-Inv env url r i
change-Inv env (removes url) r i =
    let variants = register_key_variants env.resolvers url in
    record {
      local = delete_all-Limited max_local_registry_keys variants r.localized_cache_keys i.local;
      intent =
          delete_all-Limited max_inflight_intent_keys variants r.inflight_cache_intent_keys
            i.intent;
    }
change-Inv env (intends url) r i = note_prefetch-Inv env url r i
change-Inv env (clears url) r i = clear-Inv env url r i
change-Inv env (intends_all urls) r i = note_batch-Inv env urls r i
change-Inv env (clears_all urls) r i = clear_batch-Inv env urls r i
change-Inv env distrusts r i = record { local = i.local; intent = i.intent }

-- Whatever calls change a registry whose sets have no key twice, at most 800 cached keys and at most
-- 400 keys in flight, this holds of it afterwards.
pub change_all-Inv : (cs : List (Env × Change)) (r : Registry) → Inv r → Inv (change_all cs r)
change_all-Inv [] r i = i
change_all-Inv ((env, c) ∷ cs) r i = change_all-Inv cs (change env c r) (change-Inv env c r i)
