-- ===== src/Prefetch/Congestion/Limits.antt =====
-- The limits of src/background/prefetch/arbitration/congestion-controller.js.
use aegis_stream.Prelude.{ℕ, ◌≤◌, ◌≡◌, refl, Bool, true, false, Option, min, max, arith}
use aegis_stream.Prefetch.Congestion.{
  Tier, elite, nominal, congested, panic, Env, TabState, max_inflight, runway_of, tab_emergency,
  tier_radius, resolve_congestion_tier_key, compute_dynamic_radius, is_speculative_allowed,
  compute_congestion_directives, current_directives, is_low_buffer, raise_tier_cap, buffer_cap,
  resolve_congestion_global_cap,
}

abbrev rank : Tier → ℕ
rank elite = 0
rank nominal = 1
rank congested = 2
rank panic = 3

tier-rank :
    (t u : ℕ) (p q : Bool)
    → t ≤ u
    → (p ≡ true → q ≡ true)
    → rank (resolve_congestion_tier_key t p) ≤ rank (resolve_congestion_tier_key u q)
unfolding resolve_congestion_tier_key
tier-rank t u false false h i = ground (arith, h)
tier-rank t u false true h i = ground (arith, h)
tier-rank t u true q h i = rw (i refl) (omega arith)

max_inflight-rank : (a b : Tier) → rank a ≤ rank b → max_inflight b ≤ max_inflight a
max_inflight-rank elite b h = every b
  where
    every : (b : Tier) → max_inflight b ≤ 12
    every elite = omega arith
    every nominal = omega arith
    every congested = omega arith
    every panic = omega arith
max_inflight-rank nominal elite h = absurd (omega arith)
max_inflight-rank nominal nominal h = omega arith
max_inflight-rank nominal congested h = omega arith
max_inflight-rank nominal panic h = omega arith
max_inflight-rank congested elite h = absurd (omega arith)
max_inflight-rank congested nominal h = absurd (omega arith)
max_inflight-rank congested congested h = omega arith
max_inflight-rank congested panic h = omega arith
max_inflight-rank panic elite h = absurd (omega arith)
max_inflight-rank panic nominal h = absurd (omega arith)
max_inflight-rank panic congested h = absurd (omega arith)
max_inflight-rank panic panic h = omega arith

-- The radius of each tier lies in a band of its own.
tier_radius-rank :
    (a b : Tier) (base : ℕ)
    → rank a ≤ rank b
    → 8 ≤ base
    → base ≤ 30
    → tier_radius b base ≤ tier_radius a base
tier_radius-rank elite elite base h low high = omega arith
tier_radius-rank elite nominal base h low high = omega arith
tier_radius-rank elite congested base h low high = omega arith
tier_radius-rank elite panic base h low high = omega arith
tier_radius-rank nominal elite base h low high = absurd (omega arith)
tier_radius-rank nominal nominal base h low high = omega arith
tier_radius-rank nominal congested base h low high = omega arith
tier_radius-rank nominal panic base h low high = omega arith
tier_radius-rank congested elite base h low high = absurd (omega arith)
tier_radius-rank congested nominal base h low high = absurd (omega arith)
tier_radius-rank congested congested base h low high = omega arith
tier_radius-rank congested panic base h low high = omega arith
tier_radius-rank panic elite base h low high = absurd (omega arith)
tier_radius-rank panic nominal base h low high = absurd (omega arith)
tier_radius-rank panic congested base h low high = absurd (omega arith)
tier_radius-rank panic panic base h low high = omega arith

compute_dynamic_radius-rank :
    (a b : Tier) (base : ℕ) (guard : Bool)
    → tier_radius b (max 1 base) ≤ tier_radius a (max 1 base)
    → compute_dynamic_radius base b guard ≤ compute_dynamic_radius base a guard
unfolding compute_dynamic_radius
compute_dynamic_radius-rank a b base true h = omega (arith, h)
compute_dynamic_radius-rank a b base false h = omega (arith, h)

-- A longer time to the first byte, or panic, never raises the number of prefetches in flight; and,
-- with a base radius from 8 to 30, it never widens the radius.
pub congestion-monotone :
    (t u base : ℕ) (p q guard : Bool)
    → t ≤ u
    → (p ≡ true → q ≡ true)
    → (max_inflight (resolve_congestion_tier_key u q)
        ≤ max_inflight (resolve_congestion_tier_key t p))
      × (8 ≤ base
          → base ≤ 30
          → compute_dynamic_radius base (resolve_congestion_tier_key u q) guard
            ≤ compute_dynamic_radius base (resolve_congestion_tier_key t p) guard)
congestion-monotone t u base p q guard h i =
    let better = resolve_congestion_tier_key t p in
    let worse = resolve_congestion_tier_key u q in
    let r = tier-rank t u p q h i in
    (
      max_inflight-rank better worse r,
      λ low high.
          compute_dynamic_radius-rank better worse base guard (
            tier_radius-rank better worse (max 1 base) r (omega (arith, low))
              (omega (arith, high))),
    )

-- The radius is at least 1, and from 15 to 20 while the scrub guard is active.
pub compute_dynamic_radius-bounds :
    (base : ℕ) (tier : Tier) (guard : Bool)
    → (1 ≤ compute_dynamic_radius base tier guard)
      × (guard ≡ true
          → (15 ≤ compute_dynamic_radius base tier guard)
            × (compute_dynamic_radius base tier guard ≤ 20))
unfolding compute_dynamic_radius
compute_dynamic_radius-bounds base elite guard = ground arith
compute_dynamic_radius-bounds base nominal guard = ground arith
compute_dynamic_radius-bounds base congested guard = ground arith
compute_dynamic_radius-bounds base panic guard = ground arith

-- Segments are fetched on speculation exactly if the directives allow it, and then one or two; and
-- that takes a tab that is in no emergency, no panic, a runway of at least 20 seconds and a time to
-- the first byte of at most 200 milliseconds.
pub speculation-needs :
    (env : Env) (tab : Option TabState) (base : ℕ)
    → let d = compute_congestion_directives env tab base in
      (d.speculative_allowed ≡ false → d.speculative_segments_ahead ≡ 0)
      × (d.speculative_allowed ≡ true
          → (1 ≤ d.speculative_segments_ahead)
            × (d.speculative_segments_ahead ≤ 2)
            × (tab_emergency tab ≡ false)
            × (env.panic_active ≡ false)
            × (20 ≤ runway_of tab)
            × (d.ttfb_p95_ms ≤ 200))
unfolding compute_congestion_directives is_speculative_allowed resolve_congestion_tier_key
speculation-needs env tab base = ground arith

raise_tier_cap-bounds :
    (env : Env) (tab : Option TabState) (cap : ℕ)
    → (cap ≤ raise_tier_cap env tab cap)
      × (is_low_buffer tab ≡ true → 6 ≤ raise_tier_cap env tab cap)
      × (tab_emergency tab ≡ true → 10 ≤ raise_tier_cap env tab cap)
unfolding raise_tier_cap
raise_tier_cap-bounds env tab cap = ground arith

-- The global cap is at least 1 and at most the buffer's cap (or 1); it reaches 6 with a low buffer
-- and 10 in an emergency, as far as the buffer's cap goes.
pub resolve_congestion_global_cap-bounds :
    (env : Env) (tab : Option TabState)
    → let cap = (resolve_congestion_global_cap env tab).0 in
      (1 ≤ cap)
      × (cap ≤ max 1 (buffer_cap env))
      × (is_low_buffer tab ≡ true → min (buffer_cap env) 6 ≤ cap)
      × (tab_emergency tab ≡ true → min (buffer_cap env) 10 ≤ cap)
unfolding resolve_congestion_global_cap
resolve_congestion_global_cap-bounds env tab =
    let most = max 1 (current_directives env tab).0.max_inflight_prefetches in
    let (raised, low, urgent) = raise_tier_cap-bounds env tab most in
    (omega (arith, raised), omega arith, λ h. omega (arith, low h), λ h. omega (arith, urgent h))
