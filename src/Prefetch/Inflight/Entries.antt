-- ===== src/Prefetch/Inflight/Entries.antt =====
-- What src/background/prefetch/state/inflight-consumers.js keeps of one entry.
use aegis_stream.Prelude.Keys.{◌===◌, string_eq, nat_eq}
use aegis_stream.Prelude.{
  ℕ, ◌<◌, ◌≡◌, refl, subst, true, false, Option, none, some, List, [], ◌∷◌, ltb, if_pos, All, arith,
  Bool-cases, inl, inr,
}
use aegis_stream.Prefetch.Inflight.{
  Entry, is_other_tab, add_tab, remove_tab, tabs_of, attach_entry, release_entry, Store, is_done,
}

-- Only the tab that owns the prefetch is in the set, once.
abbrev pub OwnTabs : Option ℕ → List ℕ → Type 0
OwnTabs owner [] = Unit
OwnTabs owner (t ∷ ts) = (owner ≡ some t) × (ts ≡ [])

-- The lock says whether a player is attached, and an entry that waits for its release has one.
pub record Held (entry : Entry) : Type 0 where
  pub locked : entry.abort_locked ≡ ltb 0 entry.consumers
  pub waits : entry.pending_release ≡ true → 0 < entry.consumers
  pub own : OwnTabs entry.tab_id (tabs_of entry.attached_tabs)

abbrev pub AllHeld : Store → Type 0
AllHeld = All λ (key, entry). Held entry

pub own_tab :
    (owner : Option ℕ) (tab : ℕ) → is_other_tab owner (some tab) ≡ false → owner ≡ some tab
own_tab none tab h = ground (arith, h)
own_tab (some owner) tab h = ground (arith, h)

pub add_tab-OwnTabs :
    (owner : Option ℕ) (tab : ℕ) (tabs : List ℕ)
    → owner ≡ some tab
    → OwnTabs owner tabs
    → OwnTabs owner (add_tab tab tabs)
add_tab-OwnTabs owner tab [] p h = (p, refl)
add_tab-OwnTabs owner tab (t ∷ ts) p h = elim (nat_eq.dec t tab) [
  | yes q ↦ rw (if_pos _ q) h
  | no q ↦ absurd (q (ground (arith, h.0, p)))
]

pub remove_tab-OwnTabs :
    (owner : Option ℕ) (tab : ℕ) (tabs : List ℕ)
    → OwnTabs owner tabs
    → OwnTabs owner (remove_tab tab tabs)
remove_tab-OwnTabs owner tab [] h = tt
remove_tab-OwnTabs owner tab (t ∷ s ∷ ts) h = absurd (ground (arith, h.1))
remove_tab-OwnTabs owner tab (t ∷ []) h = elim (Bool-cases (t === tab)) [
  | inl p ↦ rw p tt
  | inr p ↦ rw p h
]

pub attach_entry-Held :
    (tab : Option ℕ) (entry : Entry)
    → is_other_tab entry.tab_id tab ≡ false
    → Held entry
    → Held (attach_entry tab entry)
attach_entry-Held none entry p h = record { locked = refl; waits = λ q. omega arith; own = h.own }
attach_entry-Held (some tab) entry p h = record {
  locked = refl;
  waits = λ q. ground (arith, q);
  own =
      add_tab-OwnTabs entry.tab_id tab (tabs_of entry.attached_tabs) (own_tab entry.tab_id tab p)
        h.own;
}

-- Releasing leaves an entry that is held, or done.
pub release_entry-Held :
    (tab : Option ℕ) (tabs : Option (List ℕ)) (entry : Entry)
    → entry.attached_tabs ≡ tabs
    → Held entry
    → is_done (release_entry tab tabs entry) ≡ false
    → Held (release_entry tab tabs entry)
release_entry-Held none tabs entry p h d = record {
  locked = refl;
  waits = λ q. ground (arith, q, d);
  own = h.own;
}
release_entry-Held (some tab) none entry p h d = record {
  locked = refl;
  waits = λ q. ground (arith, q, d);
  own = h.own;
}
release_entry-Held (some tab) (some tabs) entry p h d = record {
  locked = refl;
  waits = λ q. ground (arith, q, d);
  own =
      remove_tab-OwnTabs entry.tab_id tab tabs
        (subst (λ t. OwnTabs entry.tab_id (tabs_of t)) p h.own);
}
