-- ===== src/StoreQueue/Invariant.antt =====
-- The well-formedness of the write queue (src/background/cache/store-queue.js), kept by every event.
use aegis_stream.Prelude.{
  ℕ, zero, suc, ◌+◌, ◌-◌, ◌≤◌, ◌<◌, ◌≡◌, refl, ◌⊎◌, inl, inr, Bool, true, false, some, List, [],
  ◌∷◌, ◌++◌, arith, All, length, length-append, All-append, ltb, Bool-cases, Option-cases,
}
use aegis_stream.StoreQueue.{
  Entry, Config, Queue, Event, submit, ends, microtask, Slots, empty, is_low, resolve_concurrency,
  resolve_max_queue_depth, start_waiting, pump_wait_queue, drop_task, place, accept,
  enqueue_unbounded, is_running, stop_running, after_end, count_finish, finish, run_microtask, step,
  run,
}
use aegis_stream.StoreQueue.Branches.{Enqueued, takes_room, evicts, refuses, enqueue_cases}
use aegis_stream.StoreQueue.Splices.{
  remove_low, insert_high, place_lem, length-insert_high, length-remove_low,
}

abbrev pub AllLow : List Entry → Type 0
AllLow = All λ e. is_low e.priority ≡ true

-- Every high entry stands before every low one.
abbrev pub HighFirst : List Entry → Type 0
HighFirst [] = Unit
HighFirst (e ∷ es) = (is_low e.priority ≡ true → AllLow es) × HighFirst es

pub record Holds (c : Config) (active : ℕ) (running : List ℕ) (waiting : List Entry) : Type 0 where
  pub counted : active ≡ length running
  pub bounded : active ≤ resolve_concurrency c
  pub depth : length waiting + active ≤ resolve_max_queue_depth c
  pub high_first : HighFirst waiting

pub record Inv (c : Config) (q : Queue) : Type 0 where
  pub holds : Holds c q.active q.running q.wait_queue
  pub open holds use *
  pub busy : q.pumps ≡ 0 → (q.wait_queue ≡ []) ⊎ (q.active ≡ resolve_concurrency c)

pub resolve_concurrency-pos : (c : Config) → 0 < resolve_concurrency c
unfolding resolve_concurrency
resolve_concurrency-pos c = omega arith

pub concurrency-le-depth : (c : Config) → resolve_concurrency c ≤ resolve_max_queue_depth c
unfolding resolve_max_queue_depth
concurrency-le-depth c = omega arith

-- What the loop of the pump leaves.
pub record Started (n active : ℕ) (running : List ℕ) (waiting : List Entry) (s : Slots)
    : Type 0 where
  pub counted : s.active + length running ≡ length s.running + active
  pub kept : length s.waiting + s.active ≡ length waiting + active
  pub bounded : s.active ≤ n
  pub full : (s.waiting ≡ []) ⊎ (s.active ≡ n)
  pub high_first : HighFirst s.waiting

pub start_waiting-Started :
    (n active : ℕ) (running : List ℕ) (waiting : List Entry)
    → active ≤ n
    → HighFirst waiting
    → Started n active running waiting (start_waiting n active running waiting)
unfolding start_waiting
start_waiting-Started n active running [] h s = ground arith
start_waiting-Started n active running (e ∷ es) h s = elim (Bool-cases (ltb active n)) [
  | inl free ↦ rw free (
      let more = start_waiting-Started n (active + 1) (e.task ∷ running) es (ground arith) s.1 in
      record {
        counted = omega (arith, more.counted);
        kept = omega (arith, more.kept);
        bounded = more.bounded;
        full = more.full;
        high_first = more.high_first;
      })
  | inr full ↦ rw full (record {
    counted = omega arith;
    kept = refl;
    bounded = h;
    full = inr (ground arith);
    high_first = s;
  })
]

-- The pump restores the invariant, whatever the microtasks that are left.
pub pump-Inv :
    (c : Config) (q : Queue) → Holds c q.active q.running q.wait_queue → Inv c (pump_wait_queue c q)
unfolding pump_wait_queue
pump-Inv c q h =
    let s =
      start_waiting-Started (resolve_concurrency c) q.active q.running q.wait_queue h.bounded
        h.high_first in
    record {
      holds = record {
        counted = omega (arith, s.counted, h.counted);
        bounded = s.bounded;
        depth = omega (arith, s.kept, h.depth);
        high_first = s.high_first;
      };
      busy = λ _. s.full;
    }

remove_low-AllLow :
    (es : List Entry) {e : Entry} {rest : List Entry}
    → remove_low es ≡ some (e, rest)
    → AllLow es
    → AllLow rest
unfolding remove_low
remove_low-AllLow [] h s = cc
remove_low-AllLow (x ∷ es) h s = ground arith

pub remove_low-HighFirst :
    (es : List Entry) {e : Entry} {rest : List Entry}
    → remove_low es ≡ some (e, rest)
    → HighFirst es
    → HighFirst rest
unfolding remove_low
remove_low-HighFirst [] h s = cc
remove_low-HighFirst (x ∷ es) {e} {rest} h s = elim (Option-cases (remove_low es)) [
  | inl p ↦ ground arith
  | inr ((found, r), p) ↦ ground (arith, remove_low-HighFirst es p s.1)
]

append-HighFirst :
    (entry : Entry) (es : List Entry)
    → is_low entry.priority ≡ true
    → HighFirst es
    → HighFirst (es ++ entry ∷ [])
append-HighFirst entry [] h s = (λ _. tt, tt)
append-HighFirst entry (x ∷ es) h s =
    (λ low. All-append _ es (entry ∷ []) (s.0 low) (h, tt), append-HighFirst entry es h s.1)

insert_high-HighFirst :
    (entry : Entry) (es : List Entry)
    → is_low entry.priority ≡ false
    → HighFirst es
    → HighFirst (insert_high entry es)
unfolding insert_high
insert_high-HighFirst entry [] h s = ground arith
insert_high-HighFirst entry (x ∷ es) h s = ground (arith, insert_high-HighFirst entry es h s.1)

pub place-HighFirst : (entry : Entry) (es : List Entry) → HighFirst es → HighFirst (place entry es)
place-HighFirst entry es s = elim (Bool-cases (is_low entry.priority)) [
  | inl p ↦ rw (place_lem entry es, p) (append-HighFirst entry es p s)
  | inr p ↦ rw (place_lem entry es, p) (insert_high-HighFirst entry es p s)
]

pub length-place : (entry : Entry) (es : List Entry) → length (place entry es) ≡ suc (length es)
length-place entry es =
    ground (arith, place_lem entry es, length-insert_high entry es, length-append es (entry ∷ []))

-- With room for one more entry, `accept` ends well.
accept-Inv :
    (c : Config) (entry : Entry) (q : Queue)
    → Holds c q.active q.running q.wait_queue
    → length q.wait_queue + q.active < resolve_max_queue_depth c
    → Inv c (accept c entry q)
unfolding accept
accept-Inv c entry q h room = pump-Inv c _ (record {
  counted = h.counted;
  bounded = h.bounded;
  depth = omega (arith, length-place entry q.wait_queue);
  high_first = place-HighFirst entry q.wait_queue h.high_first;
})

enqueue_unbounded-Inv :
    (c : Config) (entry : Entry) (q : Queue) → Inv c q → Inv c (enqueue_unbounded c entry q)
unfolding drop_task
enqueue_unbounded-Inv c entry q v = by_case (enqueue_cases c entry q)
  where
    by_case : {r : Queue} → Enqueued c entry q r → Inv c r
    by_case (takes_room room e) = rw e (accept-Inv c entry q v.holds room)
    by_case (evicts victim rest full h found e) =
        let shorter = length-remove_low q.wait_queue found in
        let left : Holds c q.active q.running rest = record {
          counted = v.counted;
          bounded = v.bounded;
          depth = omega (arith, shorter, v.depth);
          high_first = remove_low-HighFirst q.wait_queue found v.high_first;
        } in
        rw e (accept-Inv c entry _ left (omega (arith, shorter, v.depth)))
    by_case (refuses full no_low e) = rw e (record { holds = v.holds; busy = v.busy })

pub length-stop_running :
    (task : ℕ) (ts : List ℕ)
    → is_running task ts ≡ true
    → length (stop_running task ts) + 1 ≡ length ts
unfolding is_running stop_running
length-stop_running task [] h = cc
length-stop_running task (t ∷ ts) h = ground (arith, length-stop_running task ts)

finish-Inv : (c : Config) (task : ℕ) (ok : Bool) (q : Queue) → Inv c q → Inv c (finish task ok q)
unfolding finish
finish-Inv c task ok q v = elim (Bool-cases (is_running task q.running)) [
  | inr p ↦ rw (p, finish) v
  | inl p ↦ rw (p, finish) (ended ok p)
]
  where
    left :
        is_running task q.running ≡ true
        → Holds c (q.active - 1) (stop_running task q.running) q.wait_queue
    left p = record {
      counted = omega (arith, length-stop_running task q.running p, v.counted);
      bounded = omega (arith, v.bounded);
      depth = omega (arith, v.depth);
      high_first = v.high_first;
    }

    ended :
        (b : Bool)
        → is_running task q.running ≡ true
        → Inv c (count_finish task b (after_end task q))
    ended true p = record { holds = left p; busy = λ z. absurd (omega (arith, z)) }
    ended false p = record { holds = left p; busy = λ z. absurd (omega (arith, z)) }

run_microtask-Inv : (c : Config) (n : ℕ) (q : Queue) → Inv c q → Inv c (run_microtask c n q)
unfolding run_microtask
run_microtask-Inv c zero q v = v
run_microtask-Inv c (suc n) q v = pump-Inv c _ v.holds

-- Every event keeps the queue well formed: as many closures run as `active` says, never more than
-- the concurrency; no more tasks are held than the depth; the high entries stand first; and with no
-- microtask outstanding either nothing waits or every slot is taken.
pub step-Inv : (c : Config) (q : Queue) (e : Event) → Inv c q → Inv c (step c q e)
unfolding step
step-Inv c q (submit entry) v = enqueue_unbounded-Inv c entry q v
step-Inv c q (ends task ok) v = finish-Inv c task ok q v
step-Inv c q microtask v = run_microtask-Inv c q.pumps q v

empty-Inv : (c : Config) → Inv c empty
unfolding empty
empty-Inv c = record {
  holds = record { counted = refl; bounded = omega arith; depth = omega arith; high_first = tt };
  busy = λ _. inl refl;
}

run_from-Inv : (c : Config) (q : Queue) (es : List Event) → Inv c q → Inv c (run c q es)
unfolding run
run_from-Inv c q [] v = v
run_from-Inv c q (e ∷ es) v = run_from-Inv c (step c q e) es (step-Inv c q e v)

-- After any events at all, from the empty queue: as many closures run as `active` says, never more
-- than the concurrency; no more tasks are held than the depth; the high entries stand before the
-- low ones; and with no microtask outstanding nothing waits or every slot is taken.
pub run-Inv : (c : Config) (es : List Event) → Inv c (run c empty es)
run-Inv c es = run_from-Inv c empty es (empty-Inv c)
