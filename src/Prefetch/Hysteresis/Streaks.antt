-- ===== src/Prefetch/Hysteresis/Streaks.antt =====
-- Streaks of observations in src/background/prefetch/anchor/anchor-hysteresis.js: the anchor moves
-- far only when the player proves the new place.
use aegis_stream.Prelude.{
  ℕ, ◌+◌, ◌≤◌, ◌<◌, ◌≡◌, refl, ◌∙◌, true, false, Option, none, some, List, [], ◌∷◌, ◌++◌, length,
  arith, Bool-cases, inl, inr,
}
use aegis_stream.Prefetch.Hysteresis.{
  TabState, nearby_delta, is_passive_hysteresis_muted, distance, reset_passive_anchor_deferral,
  continues, is_pending, note_pending, commit_streak, evaluate_numbers,
}

-- Observations, each with its time, while the caller moves its anchor to each result.
abbrev pub follow : ℕ → List (ℕ × ℕ) → ℕ × TabState → ℕ × TabState
follow threshold [] r = r
follow threshold ((now, observed) ∷ rest) (anchor, s) =
    follow threshold rest (evaluate_numbers threshold now observed anchor s)

-- Far from the anchor, and after any mute has run out.
abbrev pub Far : ℕ → ℕ → ℕ → ℕ → Type 0
Far anchor until now observed = (nearby_delta < distance observed anchor) × (until ≤ now)

-- Each observation repeats the one before it, or is the next index.
abbrev pub Train : ℕ → ℕ → Option ℕ → List (ℕ × ℕ) → Type 0
Train anchor until pending [] = Unit
Train anchor until pending ((now, observed) ∷ rest) =
    Far anchor until now observed
    × (continues pending observed ≡ true)
    × Train anchor until (some observed) rest

-- No observation goes on from the one before it.
abbrev pub Scattered : ℕ → ℕ → Option ℕ → List (ℕ × ℕ) → Type 0
Scattered anchor until pending [] = Unit
Scattered anchor until pending ((now, observed) ∷ rest) =
    Far anchor until now observed
    × (continues pending observed ≡ false)
    × Scattered anchor until (some observed) rest

evaluate-Far :
    (threshold now observed anchor : ℕ) (s : TabState)
    → Far anchor s.mute_passive_hysteresis_until now observed
    → evaluate_numbers threshold now observed anchor s
      ≡ commit_streak threshold observed anchor (note_pending now observed s)
unfolding evaluate_numbers is_passive_hysteresis_muted
evaluate-Far threshold now observed anchor s far = ground (arith, far)

is_pending-some :
    (pending : Option ℕ) (observed : ℕ)
    → is_pending pending observed ≡ true
    → pending ≡ some observed
is_pending-some none observed h = absurd (ground (arith, h))
is_pending-some (some pending) observed h = ground (arith, h)

is_pending-continues :
    (pending : Option ℕ) (observed : ℕ)
    → continues pending observed ≡ false
    → is_pending pending observed ≡ false
is_pending-continues none observed h = refl
is_pending-continues (some pending) observed h = ground (arith, h)

count-continues :
    (now observed : ℕ) (s : TabState)
    → continues s.anchor_pending_index observed ≡ true
    → (note_pending now observed s).anchor_pending_count ≡ s.anchor_pending_count + 1
unfolding note_pending
count-continues now observed s h = elim (Bool-cases (is_pending s.anchor_pending_index observed)) [
  | inl q ↦ rw (q, note_pending) refl
  | inr q ↦ rw (q, h, note_pending) refl
]

count-breaks :
    (now observed : ℕ) (s : TabState)
    → continues s.anchor_pending_index observed ≡ false
    → (note_pending now observed s).anchor_pending_count ≡ 1
unfolding note_pending
count-breaks now observed s h =
    rw (is_pending-continues s.anchor_pending_index observed h, h, note_pending) refl

pending-note_pending :
    (now observed : ℕ) (s : TabState)
    → (note_pending now observed s).anchor_pending_index ≡ some observed
unfolding note_pending
pending-note_pending now observed s =
    elim (Bool-cases (is_pending s.anchor_pending_index observed)) [
      | inl q ↦ rw (q, note_pending) (is_pending-some s.anchor_pending_index observed q)
      | inr q ↦ rw (q, note_pending) refl
    ]

mute-note_pending :
    (now observed : ℕ) (s : TabState)
    → (note_pending now observed s).mute_passive_hysteresis_until ≡ s.mute_passive_hysteresis_until
unfolding note_pending
mute-note_pending now observed s = elim (Bool-cases (is_pending s.anchor_pending_index observed)) [
  | inl q ↦ rw (q, note_pending) refl
  | inr q ↦ rw (q, note_pending) refl
]

-- A far observation whose streak is still too short is deferred.
deferred :
    (threshold now observed anchor : ℕ) (s : TabState)
    → Far anchor s.mute_passive_hysteresis_until now observed
    → (note_pending now observed s).anchor_pending_count < threshold
    → evaluate_numbers threshold now observed anchor s ≡ (anchor, note_pending now observed s)
unfolding commit_streak
deferred threshold now observed anchor s far short =
    evaluate-Far threshold now observed anchor s far ∙ ground (arith, short)

-- A train of observations, far from the anchor and after any mute, each the same as the one before it
-- or the next index, that is shorter than the threshold (with the streak before it) leaves the
-- anchor; the observation that fills the threshold is the new anchor, and the streak begins again.
pub follow-Train :
    (threshold : ℕ) (train : List (ℕ × ℕ)) (anchor : ℕ) (s : TabState) (now observed : ℕ)
    → Train anchor s.mute_passive_hysteresis_until s.anchor_pending_index
        (train ++ (now, observed) ∷ [])
    → s.anchor_pending_count + length train + 1 ≡ threshold
    → ((follow threshold train (anchor, s)).0 ≡ anchor)
      × ((follow threshold (train ++ (now, observed) ∷ []) (anchor, s)).0 ≡ observed)
      × ((follow threshold (train ++ (now, observed) ∷ []) (anchor, s)).1.anchor_pending_count ≡ 0)
unfolding commit_streak reset_passive_anchor_deferral
follow-Train threshold [] anchor s now observed (far, more, _) full =
    let counted = count-continues now observed s more in
    rw (evaluate-Far threshold now observed anchor s far)
      (refl, ground (arith, counted, full), ground (arith, counted, full))
follow-Train threshold ((t, o) ∷ train) anchor s now observed (far, more, rest) full =
    let counted = count-continues t o s more in
    rw (deferred threshold t o anchor s far (omega (arith, counted, full)), follow)
      (follow-Train threshold train anchor (note_pending t o s) now observed
        (rw (pending-note_pending t o s, mute-note_pending t o s) rest)
        (omega (arith, counted, full)))

-- With a threshold of 2 or more, any number of far observations after any mute, none of which goes on from the one
-- before it, leaves the anchor where it is.
pub follow-Scattered :
    (threshold : ℕ) (jumps : List (ℕ × ℕ)) (anchor : ℕ) (s : TabState)
    → 1 < threshold
    → Scattered anchor s.mute_passive_hysteresis_until s.anchor_pending_index jumps
    → (follow threshold jumps (anchor, s)).0 ≡ anchor
follow-Scattered threshold [] anchor s two h = refl
follow-Scattered threshold ((t, o) ∷ jumps) anchor s two (far, broken, rest) =
    rw (deferred threshold t o anchor s far (omega (arith, count-breaks t o s broken, two)), follow)
      (follow-Scattered threshold jumps anchor (note_pending t o s) two
        (rw (pending-note_pending t o s, mute-note_pending t o s) rest))
