-- ===== src/Journal/Distance.antt =====
-- The distance that src/background/cache/eviction-journal.js gives a URL: to the nearest anchor.
use aegis_stream.Prelude.{
  ℕ, ◌≤◌, ◌≡◌, refl, String, Bool, true, false, Option, none, some, List, [], ◌∷◌, ltb, ℤ, All,
  arith, Bool-cases, inl, inr,
}
use aegis_stream.Journal.{
  Tab, Best, subtract, magnitude, place_in, nearer, unmapped, resolve_over,
  resolve_playback_distance_for_url,
}

abbrev pub AtMost : Option ℤ → ℕ → Type 0
AtMost none n = ⊥
AtMost (some d) n = magnitude d ≤ n

-- The URL is found, at a distance of at most `n`.
abbrev pub Within : Best → ℕ → Type 0
Within best n = (best.manifest_mapped ≡ true) × AtMost best.signed_distance n

abbrev of_fields : Bool → Option ℤ → Best → Best
of_fields mapped d best = record best { manifest_mapped = mapped; signed_distance = d }

-- The new place is within its own distance.
takes :
    (mapped : Bool) (d : Option ℤ) (best : Best) (index anchor : ℕ)
    → Within
        (nearer (of_fields mapped d best) (some (index, anchor)))
        (magnitude (subtract index anchor))
takes false d best index anchor = (refl, omega arith)
takes true none best index anchor = (refl, omega arith)
takes true (some d) best index anchor =
    elim (Bool-cases (ltb (magnitude (subtract index anchor)) (magnitude d))) [
      | inl s ↦ rw s (refl, omega arith)
      | inr s ↦ rw s (refl, ground (arith, s))
    ]

-- And what was within a distance stays so.
keeps :
    (mapped : Bool) (d : Option ℤ) (best : Best) (n : ℕ) (place : Option (ℕ × ℕ))
    → Within (of_fields mapped d best) n
    → Within (nearer (of_fields mapped d best) place) n
keeps mapped d best n none h = h
keeps false d best n (some (index, anchor)) h = absurd (ground (arith, h.0))
keeps true none best n (some (index, anchor)) h = absurd h.1
keeps true (some d) best n (some (index, anchor)) h =
    elim (Bool-cases (ltb (magnitude (subtract index anchor)) (magnitude d))) [
      | inl s ↦ rw s (refl, ground (arith, s, h.1))
      | inr s ↦ rw s h
    ]

abbrev pub PlacedWithin : String → Best → Tab → Type 0
PlacedWithin url best tab =
    (index anchor : ℕ)
    → place_in url tab ≡ some (index, anchor)
    → Within best (magnitude (subtract index anchor))

resolve_over-keeps :
    (url : String) (tabs : List Tab) (best : Best) (n : ℕ)
    → Within best n
    → Within (resolve_over url tabs best) n
unfolding resolve_over
resolve_over-keeps url [] best n h = h
resolve_over-keeps url (tab ∷ tabs) best n h =
    resolve_over-keeps url tabs (nearer best (place_in url tab)) n
      (keeps best.manifest_mapped best.signed_distance best n (place_in url tab) h)

resolve_over-Placed :
    (url : String) (tabs : List Tab) (best : Best)
    → All (PlacedWithin url (resolve_over url tabs best)) tabs
unfolding resolve_over
resolve_over-Placed url [] best = tt
resolve_over-Placed url (tab ∷ tabs) best = (
  λ index anchor p.
      resolve_over-keeps url tabs (nearer best (place_in url tab))
        (magnitude (subtract index anchor))
        (rw p (takes best.manifest_mapped best.signed_distance best index anchor)),
  resolve_over-Placed url tabs (nearer best (place_in url tab)),
)

-- If a tab has an anchor and knows the URL, then the URL is said to be mapped, and the distance that it
-- is given is at most its distance to the anchor of any such tab.
pub resolve_playback_distance-nearest :
    (url : String) (tabs : List Tab)
    → All (PlacedWithin url (resolve_playback_distance_for_url url tabs)) tabs
unfolding resolve_playback_distance_for_url
resolve_playback_distance-nearest url tabs = resolve_over-Placed url tabs unmapped
