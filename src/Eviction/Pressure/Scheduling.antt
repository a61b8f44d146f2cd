-- ===== src/Eviction/Pressure/Scheduling.antt =====
-- What src/background/cache/eviction-manager.js schedules, and what holds it back.
use aegis_stream.Prelude.Keys.{nat_eq}
use aegis_stream.Prelude.OrdMap
use aegis_stream.Prelude.OrdMap.{OrdMap, IsMap}
use aegis_stream.Prelude.{
  ℕ, ◌≡◌, refl, sym, ap, ◌∙◌, nonzero_or, Bool, true, false, ◌||◌, inl, inr, Option, none, some,
  List, [], ◌∷◌, arith, Bool-cases,
}
use aegis_stream.Eviction.Pressure.{
  TabState, is_suppressed, is_tab_eviction_suppressed, any_other_suppressed,
  is_any_tab_eviction_suppressed, Env, Manager, Pressure, Summary, Policy, evaluate_pressure,
  scrub_defer_of, is_suppressed_now, should_schedule_soft_eviction, trigger_with,
  trigger_lane2_from_pressure,
}

-- Some tab of the map is suppressed.
abbrev pub any_suppressed : ℕ → List (ℕ × TabState) → Bool
any_suppressed now [] = false
any_suppressed now ((id, t) ∷ rest) = is_suppressed now t || any_suppressed now rest

any_other-none :
    (now : ℕ) (tabs : List (ℕ × TabState))
    → any_other_suppressed now none tabs ≡ any_suppressed now tabs
unfolding any_other_suppressed
any_other-none now [] = refl
any_other-none now ((id, t) ∷ rest) = ground (arith, any_other-none now rest)

any_other-some :
    (now active : ℕ) (tabs : OrdMap ℕ TabState)
    → IsMap tabs
    → (is_tab_eviction_suppressed now (some active) tabs
        || any_other_suppressed now (some active) tabs)
      ≡ any_suppressed now tabs
unfolding is_tab_eviction_suppressed any_other_suppressed OrdMap.get
any_other-some now active [] h = refl
any_other-some now active ((id, t) ∷ rest) h = elim (nat_eq.dec id active) [
  | yes same ↦
      let gone : OrdMap.get active rest ≡ none = ap (λ k. OrdMap.get k rest) (sym same) ∙ h.0 in
      ground (arith, any_other-some now active rest h.1, gone, same)
  | no differ ↦ ground (arith, any_other-some now active rest h.1, differ)
]

-- For any tabs and any active tab: eviction is suppressed exactly if some tab is, whether or not it is
-- the active one, which the loop over the others leaves out.
pub is_any_tab_eviction_suppressed_lem :
    (now : ℕ) (active : Option ℕ) (tabs : OrdMap ℕ TabState)
    → IsMap tabs
    → is_any_tab_eviction_suppressed now active tabs ≡ any_suppressed now tabs
unfolding is_any_tab_eviction_suppressed is_tab_eviction_suppressed
is_any_tab_eviction_suppressed_lem now none tabs h = any_other-none now tabs
is_any_tab_eviction_suppressed_lem now (some active) tabs h = any_other-some now active tabs h

-- What a trigger makes of a manager.
pub data Triggered (env : Env) (p : Pressure) (m r : Manager) : Type 0 where
  -- Below all thresholds nothing is scheduled.
  calm :
      p.over_soft_threshold ≡ false
      → p.over_hard_threshold ≡ false
      → p.over_budget ≡ false
      → r ≡ m
      → Triggered env p m r
  -- Over the hard threshold or the budget a forced pass is, whatever the tabs do.
  urgent :
      (p.over_hard_threshold || p.over_budget) ≡ true
      → r.lane2_timer ≡ some (record { delay_ms = 100; force = true })
      → r.lane2_deferred_timer ≡ m.lane2_deferred_timer
      → Triggered env p m r
  -- Over the soft threshold only, a tab that is suppressed defers it, and what is scheduled stays.
  deferred :
      p.over_soft_threshold ≡ true
      → p.over_hard_threshold ≡ false
      → p.over_budget ≡ false
      → any_suppressed env.now env.tabs ≡ true
      → r.lane2_timer ≡ m.lane2_timer
      → r.lane2_deferred_timer ≡ some (scrub_defer_of env)
      → Triggered env p m r
  -- Over the soft threshold only, and with no such tab, a soft pass is scheduled.
  gentle :
      p.over_soft_threshold ≡ true
      → p.over_hard_threshold ≡ false
      → p.over_budget ≡ false
      → any_suppressed env.now env.tabs ≡ false
      → r.lane2_timer ≡ some (record { delay_ms = nonzero_or 2_000 env.debounce_ms; force = false })
      → r.lane2_deferred_timer ≡ m.lane2_deferred_timer
      → Triggered env p m r

trigger_with-Triggered :
    (env : Env) (p : Pressure) (m : Manager)
    → IsMap env.tabs
    → Triggered env p m (trigger_with env p m)
unfolding should_schedule_soft_eviction
trigger_with-Triggered env p m h =
    let any = is_any_tab_eviction_suppressed_lem env.now env.active_tab env.tabs h in
    elim (Bool-cases p.over_hard_threshold) [
      | inl hard ↦ urgent (ground (arith, hard)) (ground (arith, hard)) (ground (arith, hard))
      | inr not_hard ↦ elim (Bool-cases p.over_budget) [
        | inl over ↦
            urgent (ground (arith, over, not_hard)) (ground (arith, over, not_hard))
              (ground (arith, over, not_hard))
        | inr not_over ↦ elim (Bool-cases p.over_soft_threshold) [
          | inr not_soft ↦
              calm not_soft not_hard not_over (rw (not_soft, not_hard, not_over, trigger_with) refl)
          | inl soft ↦ elim (Bool-cases (is_suppressed_now env)) [
            | inl held ↦
                deferred soft not_hard not_over (sym any ∙ held)
                  (ground (arith, held, soft, not_over, not_hard))
                  (ground (arith, held, soft, not_over, not_hard))
            | inr free ↦
                gentle soft not_hard not_over (sym any ∙ free)
                  (ground (arith, free, soft, not_over, not_hard))
                  (ground (arith, free, soft, not_over, not_hard))
          ]
        ]
      ]
    ]

-- A trigger schedules by the pressure of the snapshot, and its four cases exclude each other. Below the
-- soft threshold, the hard one and the budget, nothing changes. Over the hard threshold or the budget a
-- forced pass is due in 100 ms, whatever the tabs do. Over the soft threshold alone, some tab being
-- suppressed, the trigger is repeated after the time of deferral and no pass is scheduled anew; and no
-- tab being suppressed, a pass that is not forced is due after the debounce.
pub trigger_lane2-Triggered :
    (env : Env) (summary : Summary) (policy : Policy) (m : Manager)
    → IsMap env.tabs
    → Triggered env
        (evaluate_pressure env.ratios summary policy)
        m
        (trigger_lane2_from_pressure env (some (summary, policy)) m)
unfolding trigger_lane2_from_pressure
trigger_lane2-Triggered env summary policy m h =
    trigger_with-Triggered env (evaluate_pressure env.ratios summary policy) m h
