-- ===== src/HotBytes/Awaited.antt =====
-- The timers of the waiters in src/page/cache/hot-byte-cache.js, and the waiters over any calls.
use aegis_stream.Prelude.Keys.{string_eq, nat_eq}
use aegis_stream.Prelude.OrdMap
use aegis_stream.Prelude.OrdMap.{OrdMap, IsMap, total}
use aegis_stream.Prelude.{
  ℕ, ◌+◌, ◌≤◌, ◌<◌, ◌≡◌, refl, subst, String, true, none, some, List, [], ◌∷◌, ◌++◌, arith, ite,
  ℕ_discrete, Bool-cases, Option-cases, inl, inr,
}
use aegis_stream.HotBytes.Store.{Cache}
use aegis_stream.HotBytes.Waiters.{remove_waiter, holds_waiter, put_back, time_out}
use aegis_stream.HotBytes.Quiet.{get_hot_bytes-Quiet, has_hot_bytes-Quiet, alias_hot_bytes-Quiet}
use aegis_stream.HotBytes.Stakes.{
  resolved, times, waiting, stakes, resolved-append, Staked, clear-Staked,
}
use aegis_stream.HotBytes.Answers.{put-Staked, await-Staked, Quiet-Staked}
use aegis_stream.HotBytes.Runs.{
  Call, put, get, has, alias, await, timer, clear, apply_call, run_calls,
}

times-remove_waiter :
    (v w : ℕ) (ws : List ℕ) → times v (remove_waiter w ws) ≡ ite (ℕ_discrete w v) 0 (times v ws)
times-remove_waiter v w [] = ground arith
times-remove_waiter v w (x ∷ ws) = ground (arith, times-remove_waiter v w ws)

holds-times : (w : ℕ) (ws : List ℕ) → holds_waiter w ws ≡ true → 0 < times w ws
holds-times w [] h = absurd (ground (arith, h))
holds-times w (x ∷ ws) h = ground (arith, holds-times w ws, h)

put_back-IsMap :
    (key : String) (us : List ℕ) (m : OrdMap String (List ℕ)) → IsMap m → IsMap (put_back key us m)
put_back-IsMap key [] m h = OrdMap.delete-IsMap key m h
put_back-IsMap key (u ∷ us) m h = OrdMap.set-IsMap key (u ∷ us) m h

waiting-put_back :
    (v : ℕ) (key : String) (us ws : List ℕ) (m : OrdMap String (List ℕ))
    → IsMap m
    → OrdMap.get key m ≡ some ws
    → waiting v (put_back key us m) + times v ws ≡ waiting v m + times v us
waiting-put_back v key [] ws m h found =
    omega (arith, OrdMap.total-delete (times v) key m {v = ws} h found)
waiting-put_back v key (u ∷ us) ws m h found =
    OrdMap.total-set (times v) key (u ∷ us) m {u = ws} found

-- The waiter whose timer runs goes from the waiting to the resolved.
abbrev TimerBooks : ℕ → ℕ → String → List ℕ → Cache → Type 0
TimerBooks v w key ws c =
    waiting v (put_back key (remove_waiter w ws) c.waiters_by_key)
      + times v (resolved (c.woken ++ (w, none) ∷ []))
    ≡ stakes v c

timer_self :
    (w : ℕ) (key : String) (ws : List ℕ) (c : Cache)
    → IsMap c.waiters_by_key
    → OrdMap.get key c.waiters_by_key ≡ some ws
    → holds_waiter w ws ≡ true
    → stakes w c ≤ 1
    → TimerBooks w w key ws c
timer_self w key ws c h found holds once =
    let left : times w (remove_waiter w ws) ≡ 0 = ground (arith, times-remove_waiter w w ws) in
    let one : times w (w ∷ []) ≡ 1 = ground arith in
    omega (
      arith,
      waiting-put_back w key (remove_waiter w ws) ws c.waiters_by_key h found,
      holds-times w ws holds,
      OrdMap.total-delete (times w) key c.waiters_by_key {v = ws} h found,
      resolved-append w c.woken ((w, none) ∷ []),
      left,
      one,
      once,
    )

timer_other :
    (v w : ℕ) (key : String) (ws : List ℕ) (c : Cache)
    → IsMap c.waiters_by_key
    → OrdMap.get key c.waiters_by_key ≡ some ws
    → (w ≡ v → ⊥)
    → TimerBooks v w key ws c
timer_other v w key ws c h found other =
    let left : times v (remove_waiter w ws) ≡ times v ws =
      ground (arith, times-remove_waiter v w ws, other) in
    let none_of : times v (w ∷ []) ≡ 0 = ground (arith, other) in
    omega (
      arith,
      waiting-put_back v key (remove_waiter w ws) ws c.waiters_by_key h found,
      resolved-append v c.woken ((w, none) ∷ []),
      left,
      none_of,
    )

stakes-time_out :
    (v w : ℕ) (key : String) (c : Cache)
    → IsMap c.waiters_by_key
    → stakes w c ≤ 1
    → stakes v (time_out key w c) ≡ stakes v c
unfolding time_out
stakes-time_out v w key c h once = elim (Option-cases (OrdMap.get key c.waiters_by_key)) [
  | inl p ↦ rw (p, time_out) refl
  | inr (ws, p) ↦ elim (Bool-cases (holds_waiter w ws)) [
    | inr q ↦ rw (p, q, time_out) refl
    | inl q ↦
        rw (p, q, time_out)
          (elim (ℕ_discrete w v) [
            | yes same ↦
                subst (λ u. TimerBooks u w key ws c) same (timer_self w key ws c h p q once)
            | no other ↦ timer_other v w key ws c h p other
          ])
  ]
]

time_out-IsMap :
    (w : ℕ) (key : String) (c : Cache)
    → IsMap c.waiters_by_key
    → IsMap (time_out key w c).waiters_by_key
unfolding time_out
time_out-IsMap w key c h = elim (Option-cases (OrdMap.get key c.waiters_by_key)) [
  | inl p ↦ rw (p, time_out) h
  | inr (ws, p) ↦ elim (Bool-cases (holds_waiter w ws)) [
    | inr q ↦ rw (p, q, time_out) h
    | inl q ↦ rw (p, q, time_out) (put_back-IsMap key (remove_waiter w ws) c.waiters_by_key h)
  ]
]

-- How often a waiter is made by a call, and by calls.
abbrev pub asks : ℕ → Call → ℕ
asks v (await env url cache_key waiter) = times v (waiter ∷ [])
asks v call = 0

abbrev pub asks_all : ℕ → List Call → ℕ
asks_all v [] = 0
asks_all v (call ∷ calls) = asks v call + asks_all v calls

-- A step keeps the books of the waiters.
record Answered (call : Call) (c : Cache) : Type 0 where
  still_map : IsMap (apply_call call c).waiters_by_key
  added : (v : ℕ) → stakes v (apply_call call c) ≡ stakes v c + asks v call

Staked-Answered :
    (call : Call) (c : Cache)
    → IsMap c.waiters_by_key
    → Staked (λ v. asks v call) c (apply_call call c)
    → Answered call c
Staked-Answered call c h s = record { still_map = s.still_map h; added = s.added h }

apply_call-Answered :
    (call : Call) (c : Cache)
    → IsMap c.waiters_by_key
    → ((v : ℕ) → stakes v c ≤ 1)
    → Answered call c
apply_call-Answered (put env url bytes opts) c h once =
    Staked-Answered (put env url bytes opts) c h (put-Staked env url bytes opts c)
apply_call-Answered (get env url cache_key) c h once =
    Staked-Answered (get env url cache_key) c h
      (Quiet-Staked (get_hot_bytes-Quiet env url cache_key c))
apply_call-Answered (has env url cache_key) c h once =
    Staked-Answered (has env url cache_key) c h
      (Quiet-Staked (has_hot_bytes-Quiet env url cache_key c))
apply_call-Answered (alias env from_url to_url) c h once =
    Staked-Answered (alias env from_url to_url) c h
      (Quiet-Staked (alias_hot_bytes-Quiet env from_url to_url c))
apply_call-Answered (await env url cache_key waiter) c h once =
    Staked-Answered (await env url cache_key waiter) c h (await-Staked env url cache_key waiter c)
apply_call-Answered (timer key waiter) c h once = record {
  still_map = time_out-IsMap waiter key c h;
  added = λ v. omega (arith, stakes-time_out v waiter key c h (once waiter));
}
apply_call-Answered clear c h once = Staked-Answered clear c h (clear-Staked c)

-- Over any calls, if each waiter is made at most once (those that stand at the start included) then,
-- at the end, each waits or
-- has been resolved, exactly once: no promise is lost, and none is resolved twice, whether a put, a
-- timer, an overflow or a clear gets to it first.
pub stakes-run_calls :
    (calls : List Call) (c : Cache)
    → IsMap c.waiters_by_key
    → ((v : ℕ) → stakes v c + asks_all v calls ≤ 1)
    → (v : ℕ) → stakes v (run_calls calls c) ≡ stakes v c + asks_all v calls
stakes-run_calls [] c h once v = omega arith
stakes-run_calls (call ∷ calls) c h once v =
    let a = apply_call-Answered call c h (λ v. omega (arith, once v)) in
    omega (
      arith,
      stakes-run_calls calls (apply_call call c) a.still_map (λ v. omega (arith, once v, a.added v))
          v,
      a.added v,
    )
