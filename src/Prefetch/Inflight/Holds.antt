-- ===== src/Prefetch/Inflight/Holds.antt =====
-- What each call of src/background/prefetch/state/inflight-consumers.js keeps of an entry.
use aegis_stream.Prelude.Keys.{string_eq, nat_eq}
use aegis_stream.Prelude.OrdMap
use aegis_stream.Prelude.OrdMap.{OrdMap}
use aegis_stream.Prelude.{
  ℕ, zero, suc, ◌≡◌, refl, String, Bool, false, Option, none, some, List, [], ◌∷◌, ltb, ℤ, pos,
  negsuc, arith, Bool-cases, Option-cases, inl, inr,
}
use aegis_stream.Prefetch.Inflight.{
  Entry, Normalizers, normalize_inflight_key, is_other_tab, attach_entry, release_entry, Store,
  attach_key, attach_inflight_consumer, is_done, put_released, release_key,
  release_inflight_consumer, get_inflight_prefetch_entry, try_release_key,
  try_release_inflight_entry, attach_times, release_times, consumers_of, mutate_inflight_consumer,
}
use aegis_stream.Prefetch.Inflight.Entries.{Held, AllHeld, attach_entry-Held, release_entry-Held}

pub attach_key-AllHeld :
    (key : String) (tab : Option ℕ) (m : Store) → AllHeld m → AllHeld (attach_key key tab m).1
unfolding attach_key
attach_key-AllHeld key tab m h = elim (Option-cases (OrdMap.get key m)) [
  | inl p ↦ rw (p, attach_key) h
  | inr (entry, p) ↦ elim (Bool-cases (is_other_tab entry.tab_id tab)) [
    | inl q ↦ rw (p, q, attach_key) h
    | inr q ↦
        rw (p, q, attach_key)
          (OrdMap.set-All (λ (k, e). Held e) key (attach_entry tab entry) m
            (λ k. attach_entry-Held tab entry q (OrdMap.get-All Held key m h p)) h)
  ]
]

pub put_released-AllHeld :
    (key : String) (entry : Entry) (m : Store)
    → (is_done entry ≡ false → Held entry)
    → AllHeld m
    → AllHeld (put_released key entry m)
put_released-AllHeld key entry m held h = elim (Bool-cases (is_done entry)) [
  | inl p ↦ rw p (OrdMap.delete-All (λ (k, e). Held e) key m h)
  | inr p ↦ rw p (OrdMap.set-All (λ (k, e). Held e) key entry m (λ k. held p) h)
]

pub release_key-AllHeld :
    (key : String) (tab : Option ℕ) (m : Store) → AllHeld m → AllHeld (release_key key tab m).1
unfolding release_key
release_key-AllHeld key tab m h = elim (Option-cases (OrdMap.get key m)) [
  | inl p ↦ rw (p, release_key) h
  | inr (entry, p) ↦ elim (Bool-cases (is_other_tab entry.tab_id tab)) [
    | inl q ↦ rw (p, q, release_key) h
    | inr q ↦
        rw (p, q, release_key)
          (put_released-AllHeld key (release_entry tab entry.attached_tabs entry) m
            (release_entry-Held tab entry.attached_tabs entry refl (OrdMap.get-All Held key m h p))
            h)
  ]
]

pub try_release_key-AllHeld :
    (key : String) (defer : Bool) (m : Store) → AllHeld m → AllHeld (try_release_key key defer m).1
unfolding try_release_key
try_release_key-AllHeld key defer m h = elim (Option-cases (OrdMap.get key m)) [
  | inl p ↦ rw (p, try_release_key) h
  | inr (entry, p) ↦
      let held = OrdMap.get-All Held key m h p in
      elim (Bool-cases (ltb 0 entry.consumers)) [
        | inl q ↦
            rw (p, q, try_release_key)
              (OrdMap.set-All (λ (k, e). Held e) key (record entry { pending_release = defer }) m
                (λ k. record {
                  locked = held.locked;
                  waits = λ r. ground (arith, q);
                  own = held.own;
                })
                h)
        | inr q ↦ rw (p, q, try_release_key) (OrdMap.delete-All (λ (k, e). Held e) key m h)
      ]
]

module _ (n : Normalizers) where
  pub attach-AllHeld :
      (url : Option String) (tab : Option ℕ) (m : Store)
      → AllHeld m
      → AllHeld (attach_inflight_consumer n url tab m).1
  unfolding attach_inflight_consumer
  attach-AllHeld url tab m h = elim (Option-cases (normalize_inflight_key n url)) [
    | inl p ↦ rw (p, attach_inflight_consumer) h
    | inr (key, p) ↦ rw (p, attach_inflight_consumer) (attach_key-AllHeld key tab m h)
  ]

  pub release-AllHeld :
      (url : Option String) (tab : Option ℕ) (m : Store)
      → AllHeld m
      → AllHeld (release_inflight_consumer n url tab m).1
  unfolding release_inflight_consumer
  release-AllHeld url tab m h = elim (Option-cases (normalize_inflight_key n url)) [
    | inl p ↦ rw (p, release_inflight_consumer) h
    | inr (key, p) ↦ rw (p, release_inflight_consumer) (release_key-AllHeld key tab m h)
  ]

  pub try_release-AllHeld :
      (url : Option String) (defer : Bool) (m : Store)
      → AllHeld m
      → AllHeld (try_release_inflight_entry n url defer m).1
  unfolding try_release_inflight_entry
  try_release-AllHeld url defer m h = elim (Option-cases (normalize_inflight_key n url)) [
    | inl p ↦ rw (p, try_release_inflight_entry) h
    | inr (key, p) ↦ rw (p, try_release_inflight_entry) (try_release_key-AllHeld key defer m h)
  ]

  pub attach_times-AllHeld :
      (url : Option String) (tab : Option ℕ) (i : ℕ) (r : ℕ × Store)
      → AllHeld r.1
      → AllHeld (attach_times n url tab i r).1
  unfolding attach_times
  attach_times-AllHeld url tab zero r h = h
  attach_times-AllHeld url tab (suc i) r h =
      attach_times-AllHeld url tab i (attach_inflight_consumer n url tab r.1)
        (attach-AllHeld url tab r.1 h)

  pub release_times-AllHeld :
      (url : Option String) (tab : Option ℕ) (i : ℕ) (r : ℕ × Store)
      → AllHeld r.1
      → AllHeld (release_times n url tab i r).1
  unfolding release_times
  release_times-AllHeld url tab zero r h = h
  release_times-AllHeld url tab (suc i) r h =
      release_times-AllHeld url tab i (release_inflight_consumer n url tab r.1)
        (release-AllHeld url tab r.1 h)

  pub mutate-AllHeld :
      (url : Option String) (delta : Option ℤ) (tab : Option ℕ) (m : Store)
      → AllHeld m
      → AllHeld (mutate_inflight_consumer n url delta tab m).1
  unfolding mutate_inflight_consumer
  mutate-AllHeld url none tab m h = h
  mutate-AllHeld url (some (pos zero)) tab m h = h
  mutate-AllHeld url (some (pos (suc i))) tab m h = attach_times-AllHeld url tab (suc i) (0, m) h
  mutate-AllHeld url (some (negsuc i)) tab m h =
      release_times-AllHeld url tab (suc i) (consumers_of (get_inflight_prefetch_entry n url m), m)
        h

-- What happens to the store. The scheduler opens an entry for its tab.
pub data Event : Type 0 where
  opens : String → ℕ → Event
  attaches releases : Option String → Option ℕ → Event
  tries : Option String → Bool → Event
  mutates : Option String → Option ℤ → Option ℕ → Event

abbrev pub new_entry : ℕ → Entry
new_entry tab = record {
  tab_id = some tab;
  consumers = 0;
  attached_tabs = none;
  pending_release = false;
  abort_locked = false;
}

abbrev pub happen : Normalizers → Event → Store → Store
happen n (opens key tab) m = OrdMap.set key (new_entry tab) m
happen n (attaches url tab) m = (attach_inflight_consumer n url tab m).1
happen n (releases url tab) m = (release_inflight_consumer n url tab m).1
happen n (tries url defer) m = (try_release_inflight_entry n url defer m).1
happen n (mutates url delta tab) m = (mutate_inflight_consumer n url delta tab m).1

abbrev pub happen_all : Normalizers → List Event → Store → Store
happen_all n [] m = m
happen_all n (e ∷ es) m = happen_all n es (happen n e m)
