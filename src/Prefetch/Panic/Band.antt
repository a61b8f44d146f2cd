-- ===== src/Prefetch/Panic/Band.antt =====
-- When src/background/prefetch/policy/network-panic-policy.js changes its mind.
use aegis_stream.Prelude.{
  ℕ, ◌+◌, ◌-◌, ◌*◌, ◌/◌, ◌≤◌, ◌<◌, ◌≡◌, refl, subst, ◌∙◌, Bool, true, false, List, [], ◌∷◌, ltb,
  leb, if◌then◌else◌, length, sort, tally, sort-Sorted, tally-sort, length-sort, rank-Sorted,
  get-within, arith, Bool-cases, Option-cases, inl, inr,
}
use aegis_stream.Prefetch.Panic.{
  Constants, NetworkPanic, State, create_network_panic_state, p95_index, get_network_p95_ms,
  is_network_panic_active, min_samples, enter_at, exit_at, should_activate, as_number, measured,
  switch, same_flag, settle_panic, panic_of, sync_network_panic_mode,
  resolve_panic_adjusted_prefetch_window, resolve_panic_adjusted_global_cap,
}

-- Of the samples, which are not none, at most `95 * (n - 1) / 100` lie below the 95th percentile,
-- and more than that lie at it or below.
pub get_network_p95_ms-rank :
    (network : List ℕ)
    → 0 < length network
    → (tally (λ y. ltb y (get_network_p95_ms network)) network ≤ 95 * (length network - 1) / 100)
      × (95 * (length network - 1) / 100 < tally (λ y. leb y (get_network_p95_ms network)) network)
unfolding get_network_p95_ms
get_network_p95_ms-rank network h =
    let i = p95_index (length network) in
    let (v, found) = get-within (sort network) i (omega (arith, length-sort network, h)) in
    let (below, reached) = rank-Sorted (sort network) i {v = v} (sort-Sorted network) found in
    let same : i ≡ 95 * (length network - 1) / 100 = omega arith in
    rw (found, get_network_p95_ms)
      (
        omega (arith, below, same, tally-sort (λ y. ltb y v) network),
        omega (arith, reached, same, tally-sort (λ y. leb y v) network),
      )

-- The samples are too few to judge, or their percentile lies between the two thresholds.
abbrev pub InBand : Constants → List ℕ → Type 0
InBand c network =
    min_samples c ≤ length network
    → (exit_at c ≤ get_network_p95_ms network) × (get_network_p95_ms network < enter_at c)

-- The calls, each with its time and the samples that it finds.
abbrev pub sync_all : Constants → List (ℕ × List ℕ) → State → State
sync_all c [] s = s
sync_all c ((now, network) ∷ rest) s =
    sync_all c rest (sync_network_panic_mode c now (record s { first_byte_network = network })).1

abbrev pub AllInBand : Constants → List (ℕ × List ℕ) → Type 0
AllInBand c [] = Unit
AllInBand c ((now, network) ∷ rest) = InBand c network × AllInBand c rest

should_activate-InBand :
    (c : Constants) (network : List ℕ) (was_active : Bool)
    → InBand c network
    → should_activate c network (get_network_p95_ms network) was_active ≡ was_active
unfolding should_activate
should_activate-InBand c network true h = ground (arith, h)
should_activate-InBand c network false h = ground (arith, h)

same_flag_lem : (b : Bool) → same_flag b b ≡ true
same_flag_lem true = refl
same_flag_lem false = refl

active_of :
    (c : Constants) (s : State) → (panic_of c s.network_panic).active ≡ is_network_panic_active s
unfolding is_network_panic_active create_network_panic_state
active_of c s = elim (Option-cases s.network_panic) [
  | inl p ↦ rw (p, is_network_panic_active) refl
  | inr (panic, p) ↦ rw (p, is_network_panic_active) refl
]

-- What a decision leaves, where `was` is the flag before it.
pub record Decided (activate was : Bool) (s : State) (r : Bool × State) : Type 0 where
  pub returned : r.0 ≡ activate
  pub flag : is_network_panic_active r.1 ≡ activate
  pub shown : r.1.stats.network_panic_active ≡ as_number activate
  pub told : r.1.broadcasts ≡ (if same_flag activate was then s.broadcasts else s.broadcasts + 1)

settle_panic-Decided :
    (now : ℕ) (activate was : Bool) (panic : NetworkPanic) (p95 : ℕ) (s : State)
    → panic.active ≡ was
    → Decided activate was s (settle_panic now activate panic p95 s)
unfolding settle_panic is_network_panic_active switch
settle_panic-Decided now true true panic p95 s p =
    rw (p, settle_panic) (record { returned = refl; flag = refl; shown = refl; told = refl })
settle_panic-Decided now true false panic p95 s p =
    rw (p, settle_panic) (record { returned = refl; flag = refl; shown = refl; told = refl })
settle_panic-Decided now false true panic p95 s p =
    rw (p, settle_panic) (record { returned = refl; flag = refl; shown = refl; told = refl })
settle_panic-Decided now false false panic p95 s p =
    rw (p, settle_panic) (record { returned = refl; flag = refl; shown = refl; told = refl })

-- Each call of `syncNetworkPanicMode` returns its decision, keeps it as the flag, shows it as 1 or 0
-- in the statistics, and tells the tabs exactly if the flag changed. The decision: with enough
-- samples, the percentile against the exit threshold in panic and against the entry threshold
-- otherwise; with too few, the flag as it was.
pub sync-Decided :
    (c : Constants) (now : ℕ) (s : State)
    → Decided
        (should_activate c s.first_byte_network
          (get_network_p95_ms s.first_byte_network)
          (is_network_panic_active s))
        (is_network_panic_active s)
        s
        (sync_network_panic_mode c now s)
unfolding sync_network_panic_mode
sync-Decided c now s =
    let panic = panic_of c s.network_panic in
    let p95 = get_network_p95_ms s.first_byte_network in
    subst
      (λ was. Decided (should_activate c s.first_byte_network p95 was) was s (
        settle_panic now (should_activate c s.first_byte_network p95 panic.active)
          (measured c p95 panic) p95 s))
      (active_of c s)
      (settle_panic-Decided now (should_activate c s.first_byte_network p95 panic.active)
        panic.active (measured c p95 panic) p95 s refl)

same_panic :
    (s : State) (network : List ℕ)
    → is_network_panic_active (record s { first_byte_network = network })
      ≡ is_network_panic_active s
unfolding is_network_panic_active
same_panic s network = refl

told_nothing :
    (activate was : Bool) (n : ℕ)
    → activate ≡ was
    → (if same_flag activate was then n else n + 1) ≡ n
told_nothing true true n p = refl
told_nothing true false n p = absurd (ground (arith, p))
told_nothing false true n p = absurd (ground (arith, p))
told_nothing false false n p = refl

-- As long as the samples are too few, or their percentile is at least the exit threshold and below
-- the entry threshold, the flag stays and the tabs are told nothing, however many calls there are.
pub sync_all-InBand :
    (c : Constants) (calls : List (ℕ × List ℕ)) (s : State)
    → AllInBand c calls
    → (is_network_panic_active (sync_all c calls s) ≡ is_network_panic_active s)
      × ((sync_all c calls s).broadcasts ≡ s.broadcasts)
sync_all-InBand c [] s h = (refl, refl)
sync_all-InBand c ((now, network) ∷ rest) s h =
    let begun = record s { first_byte_network = network } in
    let d = sync-Decided c now begun in
    let stays = should_activate-InBand c network (is_network_panic_active begun) h.0 in
    let more = sync_all-InBand c rest (sync_network_panic_mode c now begun).1 h.1 in
    let same : is_network_panic_active begun ≡ is_network_panic_active s = same_panic s network in
    (
      more.0 ∙ d.flag ∙ stays ∙ same,
      more.1
          ∙ d.told
          ∙ told_nothing
              (should_activate c network (get_network_p95_ms network)
                (is_network_panic_active begun))
              (is_network_panic_active begun) s.broadcasts stays,
    )

-- In panic the window is never smaller than the base, and the global cap is never smaller than a
-- base of up to 24 and never larger than 24 then; out of panic both are the base.
pub panic-widens :
    (c : Constants) (s : State) (base : ℕ)
    → (base ≤ resolve_panic_adjusted_prefetch_window c s base)
      × (base ≤ 24 → base ≤ resolve_panic_adjusted_global_cap s base)
      × (base ≤ 24 → resolve_panic_adjusted_global_cap s base ≤ 24)
      × (is_network_panic_active s ≡ false
          → (resolve_panic_adjusted_prefetch_window c s base ≡ base)
            × (resolve_panic_adjusted_global_cap s base ≡ base))
unfolding resolve_panic_adjusted_prefetch_window resolve_panic_adjusted_global_cap
panic-widens c s base = elim (Bool-cases (is_network_panic_active s)) [
  | inl p ↦
      rw (p, resolve_panic_adjusted_prefetch_window, resolve_panic_adjusted_global_cap)
        (omega arith, λ h. omega arith, λ h. omega arith, λ q. absurd (ground (arith, q)))
  | inr p ↦
      rw (p, resolve_panic_adjusted_prefetch_window, resolve_panic_adjusted_global_cap)
        (omega arith, λ h. omega arith, λ h. h, λ q. (refl, refl))
]
