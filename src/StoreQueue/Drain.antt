-- ===== src/StoreQueue/Drain.antt =====
-- The write queue of src/background/cache/store-queue.js never stalls: as long as work is left, a
-- task runs or a microtask is due, and each such event uses up one unit of the load.
use aegis_stream.Prelude.{
  ℕ, zero, suc, ◌+◌, ◌*◌, ◌<◌, ◌≡◌, refl, Bool, true, false, List, [], ◌∷◌, arith, length, inl, inr,
  ◌⊎◌,
}
use aegis_stream.StoreQueue.{
  Config, Queue, Event, submit, ends, microtask, resolve_concurrency, pump_wait_queue, is_running,
  finish, run_microtask, step, run,
}
use aegis_stream.StoreQueue.Invariant.{
  Inv, step-Inv, start_waiting-Started, length-stop_running, resolve_concurrency-pos,
}

-- What is still to happen: each task held ends and pumps once, and the microtasks due run.
abbrev pub load : Queue → ℕ
load q = 2 * (length q.wait_queue + q.active) + q.pumps

-- The events that the event loop can make without a new submission.
abbrev pub Enabled : Queue → Event → Type 0
Enabled q (submit entry) = ⊥
Enabled q (ends task ok) = is_running task q.running ≡ true
Enabled q microtask = 0 < q.pumps

abbrev pub AllEnabled : Config → Queue → List Event → Type 0
AllEnabled c q [] = Unit
AllEnabled c q (e ∷ es) = Enabled q e × AllEnabled c (step c q e) es

load-finish :
    (task : ℕ) (ok : Bool) (q : Queue)
    → q.active ≡ length q.running
    → is_running task q.running ≡ true
    → load (finish task ok q) + 1 ≡ load q
unfolding finish
load-finish task true q h p = ground (arith, length-stop_running task q.running p)
load-finish task false q h p = ground (arith, length-stop_running task q.running p)

load-microtask :
    (c : Config) (n : ℕ) (q : Queue)
    → Inv c q
    → q.pumps ≡ suc n
    → load (run_microtask c (suc n) q) + 1 ≡ load q
unfolding run_microtask pump_wait_queue
load-microtask c n q v h =
    let s =
      start_waiting-Started (resolve_concurrency c) q.active q.running q.wait_queue v.bounded
        v.high_first in
    omega (arith, s.kept)

load-step :
    (c : Config) (q : Queue) (e : Event) → Inv c q → Enabled q e → load (step c q e) + 1 ≡ load q
unfolding step
load-step c q (submit entry) v h = absurd h
load-step c q (ends task ok) v h = load-finish task ok q v.counted h
load-step c q microtask v h = due q.pumps refl h
  where
    due : (n : ℕ) → q.pumps ≡ n → 0 < n → load (run_microtask c n q) + 1 ≡ load q
    due zero e p = absurd (omega arith)
    due (suc n) e p = load-microtask c n q v e

head_running : (ts : List ℕ) → 0 < length ts → (t : ℕ) × (is_running t ts ≡ true)
unfolding is_running
head_running [] h = absurd (omega arith)
head_running (t ∷ ts) h = (t, ground arith)

next_event : (c : Config) (q : Queue) → Inv c q → 0 < load q → (e : Event) × Enabled q e
next_event c q v h = by_pumps q.pumps refl
  where
    by_pumps : (n : ℕ) → q.pumps ≡ n → (e : Event) × Enabled q e
    by_pumps (suc n) e = (microtask, omega arith)
    by_pumps zero e =
        let (t, p) =
          head_running q.running (ground (arith, v.busy e, v.counted, resolve_concurrency-pos c)) in
        (ends t true, p)

load-run :
    (c : Config) (q : Queue) (es : List Event)
    → Inv c q
    → AllEnabled c q es
    → Inv c (run c q es) × (length es + load (run c q es) ≡ load q)
unfolding run
load-run c q [] v h = (v, omega arith)
load-run c q (e ∷ es) v h =
    let (v', more) = load-run c (step c q e) es (step-Inv c q e v) h.1 in
    (v', omega (arith, load-step c q e v h.0))

-- From a well-formed queue, any run of task endings and microtasks uses up one unit of the load
-- with each event, and where it stops either nothing is left or another such event is possible. So
-- the queue drains in exactly `load q` events, in whatever order they come.
pub run_drains :
    (c : Config) (q : Queue) (es : List Event)
    → Inv c q
    → AllEnabled c q es
    → (length es + load (run c q es) ≡ load q)
      × ((load (run c q es) ≡ 0) ⊎ ((e : Event) × Enabled (run c q es) e))
run_drains c q es v h =
    let (v', used) = load-run c q es v h in (used, stop (load (run c q es)) refl v')
  where
    stop :
        (n : ℕ)
        → load (run c q es) ≡ n
        → Inv c (run c q es)
        → (load (run c q es) ≡ 0) ⊎ ((e : Event) × Enabled (run c q es) e)
    stop zero e v' = inl e
    stop (suc n) e v' = inr (next_event c (run c q es) v' (omega (arith, e)))
