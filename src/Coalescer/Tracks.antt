-- ===== src/Coalescer/Tracks.antt =====
-- Which async bodies of src/page/network/network-fetch-coalescer.js an entry of the table may be of.
use aegis_stream.Prelude.Keys.{string_eq, nat_eq}
use aegis_stream.Prelude.OrdMap
use aegis_stream.Prelude.OrdMap.{OrdMap}
use aegis_stream.Prelude.{
  ℕ, ◌+◌, ◌-◌, ◌≤◌, ◌<◌, ◌≡◌, subst, ◌⊎◌, String, false, not, ◌&&◌, Option, none, some, List, [],
  ◌∷◌, ◌==◌, retain, All, arith, Bool-cases, Option-cases, inl, inr,
}
use aegis_stream.Coalescer.{
  coalesce_ttl_ms, Wire, Flight, Wires, is_stale, purge_stale_coalesced_entries,
  attach_coalesce_consumer, count_down, release_coalesce_consumer,
}
use aegis_stream.Coalescer.Fetches.{note_first_url}

-- The entry of a flight: its own, not waiting for its release, and dated when the flight began.
pub record Aloft (f : Flight) (wire : Wire) : Type 0 where
  pub own : wire.fetch ≡ f.fetch
  pub not_pending : wire.pending_release ≡ false
  pub dated : wire.started_at ≡ f.began_at

-- A flight stands in the table, or began too long ago.
abbrev pub Tracked : ℕ → OrdMap String Wire → Flight → Type 0
Tracked now m f =
    ((wire : Wire) × (OrdMap.get f.key m ≡ some wire) × Aloft f wire)
    ⊎ (coalesce_ttl_ms < now - f.began_at)

abbrev pub AllTracked : ℕ → Wires → Type 0
AllTracked now w = All (Tracked now w.inflight_by_key) w.flights

-- A step from one table to another that keeps the young flights in it.
abbrev pub Keeps : ℕ → OrdMap String Wire → OrdMap String Wire → Type 0
Keeps now m n = (f : Flight) → Tracked now m f → Tracked now n f

pub keep_all :
    (now : ℕ) (m n : OrdMap String Wire) (fs : List Flight)
    → Keeps now m n
    → All (Tracked now m) fs
    → All (Tracked now n) fs
keep_all now m n [] k h = tt
keep_all now m n (f ∷ fs) k h = (k f h.0, keep_all now m n fs k h.1)

pub get-purge :
    (now : ℕ) (key : String) (m : OrdMap String Wire) {wire : Wire}
    → OrdMap.get key m ≡ some wire
    → is_stale now wire.started_at ≡ false
    → OrdMap.get key (retain (λ (k, w). not (is_stale now w.started_at)) m) ≡ some wire
unfolding OrdMap.get
get-purge now key [] h young = cc
get-purge now key ((k, w) ∷ m) {wire = wire} h young =
    ground (arith, get-purge now key m {wire = wire})

pub later :
    (now next : ℕ) (m : OrdMap String Wire) (f : Flight)
    → now ≤ next
    → Tracked now m f
    → Tracked next m f
later now next m f h (inl found) = inl found
later now next m f h (inr old) = inr (omega arith)

pub purge-Keeps :
    (now : ℕ) (m : OrdMap String Wire)
    → Keeps now m (retain (λ (k, w). not (is_stale now w.started_at)) m)
purge-Keeps now m f (inr old) = inr old
purge-Keeps now m f (inl (wire, found, aloft)) = elim (Bool-cases (is_stale now wire.started_at)) [
  | inr young ↦ inl (wire, get-purge now f.key m {wire = wire} found young, aloft)
  | inl old ↦ inr (ground (arith, old, aloft.dated))
]

-- A changed entry keeps its flight if it stays the entry of the fetch that it was of.
pub set-Keeps :
    (now : ℕ) (key : String) (old wire : Wire) (m : OrdMap String Wire) (f : Flight)
    → OrdMap.get key m ≡ some old
    → (Aloft f old → Aloft f wire)
    → Tracked now m f
    → Tracked now (OrdMap.set key wire m) f
set-Keeps now key old wire m f h same (inr stale) = inr stale
set-Keeps now key old wire m f h same (inl (w, found, aloft)) = elim (string_eq.dec key f.key) [
  | no other ↦ inl (w, ground (arith, OrdMap.get-set f.key key wire m, other, found), aloft)
  | yes p ↦
      let is_old : w ≡ old = ground (arith, h, found, p) in
      inl (
        wire,
        ground (arith, OrdMap.get-set f.key key wire m, p),
        same (subst (λ x. Aloft f x) is_old aloft),
      )
]

pub fresh-Keeps :
    (now : ℕ) (key : String) (wire : Wire) (m : OrdMap String Wire)
    → OrdMap.get key m ≡ none
    → Keeps now m (OrdMap.set key wire m)
fresh-Keeps now key wire m h f (inr stale) = inr stale
fresh-Keeps now key wire m h f (inl (w, found, aloft)) =
    inl (w, ground (arith, OrdMap.get-set f.key key wire m, found, h), aloft)

-- An entry that no flight of the rest is aloft with may go.
pub delete-Keeps :
    (now : ℕ) (key : String) (old : Wire) (m : OrdMap String Wire) (f : Flight)
    → OrdMap.get key m ≡ some old
    → (Aloft f old → ⊥)
    → Tracked now m f
    → Tracked now (OrdMap.delete key m) f
delete-Keeps now key old m f h free (inr stale) = inr stale
delete-Keeps now key old m f h free (inl (w, found, aloft)) = elim (string_eq.dec key f.key) [
  | no other ↦ inl (w, ground (arith, OrdMap.get-delete f.key key m, other, found), aloft)
  | yes p ↦
      let is_old : w ≡ old = ground (arith, h, found, p) in
      absurd (free (subst (λ x. Aloft f x) is_old aloft))
]

pub attach-Tracked :
    (now : ℕ) (key : Option String) (w : Wires)
    → AllTracked now w
    → AllTracked now (attach_coalesce_consumer key w).1
unfolding attach_coalesce_consumer
attach-Tracked now none w h = h
attach-Tracked now (some key) w h = elim (Option-cases (OrdMap.get key w.inflight_by_key)) [
  | inl p ↦ rw (p, attach_coalesce_consumer) h
  | inr (old, p) ↦
      let wire = record old { consumers = old.consumers + 1 } in
      rw (p, attach_coalesce_consumer)
        (keep_all now w.inflight_by_key (OrdMap.set key wire w.inflight_by_key) w.flights
          (λ f.
            set-Keeps now key old wire w.inflight_by_key f p
              λ a. record { own = a.own; not_pending = a.not_pending; dated = a.dated })
          h)
]

pub release-Tracked :
    (now : ℕ) (key : Option String) (w : Wires)
    → AllTracked now w
    → AllTracked now (release_coalesce_consumer key w).1
unfolding release_coalesce_consumer
release-Tracked now none w h = h
release-Tracked now (some key) w h = elim (Option-cases (OrdMap.get key w.inflight_by_key)) [
  | inl p ↦ rw (p, release_coalesce_consumer) h
  | inr (old, p) ↦ elim (Bool-cases ((old.consumers - 1) == 0 && old.pending_release)) [
    | inl last ↦
        rw (p, last, release_coalesce_consumer)
          (keep_all now w.inflight_by_key (OrdMap.delete key w.inflight_by_key) w.flights
            (λ f.
              delete-Keeps now key old w.inflight_by_key f p
                λ a. ground (arith, last, a.not_pending))
            h)
    | inr more ↦
        rw (p, more, release_coalesce_consumer)
          (keep_all now w.inflight_by_key (OrdMap.set key (count_down old) w.inflight_by_key)
            w.flights
            (λ f.
              set-Keeps now key old (count_down old) w.inflight_by_key f p
                λ a. record { own = a.own; not_pending = a.not_pending; dated = a.dated })
            h)
  ]
]

pub purge-Tracked :
    (now : ℕ) (w : Wires) → AllTracked now w → AllTracked now (purge_stale_coalesced_entries now w)
unfolding purge_stale_coalesced_entries
purge-Tracked now w h =
    keep_all now w.inflight_by_key
      (retain (λ (k, wire). not (is_stale now wire.started_at)) w.inflight_by_key) w.flights
      (purge-Keeps now w.inflight_by_key) h

pub note_first_url-Tracked :
    (now : ℕ) (key : String) (url : Option String) (w : Wires)
    → AllTracked now w
    → AllTracked now (note_first_url key url w)
note_first_url-Tracked now key none w h = ground (arith, h)
note_first_url-Tracked now key (some url) w h =
    elim (Bool-cases (OrdMap.has key w.coalesce_key_to_url)) [ inl p ↦ rw p h | inr p ↦ rw p h ]
