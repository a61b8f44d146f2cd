-- ===== src/StoreQueue/Tickets.antt =====
-- No write of src/background/cache/store-queue.js is lost, and none ends twice.
use aegis_stream.Prelude.{
  ℕ, zero, suc, ◌+◌, ◌≡◌, refl, Bool, true, false, some, List, [], ◌∷◌, ◌++◌, arith, Option-cases,
  inl, inr, ℕ_discrete, count, count-append, ite,
}
use aegis_stream.StoreQueue.{
  Entry, Outcome, Config, Queue, Event, submit, ends, microtask, empty, resolve_concurrency,
  start_waiting, pump_wait_queue, drop_task, place, accept, enqueue_unbounded, is_running,
  stop_running, finish, run_microtask, step, run,
}
use aegis_stream.StoreQueue.Branches.{Enqueued, takes_room, evicts, refuses, enqueue_cases}
use aegis_stream.StoreQueue.Splices.{remove_low, insert_high, place_lem}

abbrev pub tasks : List Entry → List ℕ
tasks [] = []
tasks (e ∷ es) = e.task ∷ tasks es

abbrev pub ended_tasks : List (ℕ × Outcome) → List ℕ
ended_tasks [] = []
ended_tasks ((task, _) ∷ rest) = task ∷ ended_tasks rest

-- The promises of the queue for one task: waiting, running, and ended.
abbrev pub tickets : ℕ → Queue → ℕ
tickets t q =
    count ℕ_discrete t (tasks q.wait_queue)
    + count ℕ_discrete t q.running
    + count ℕ_discrete t (ended_tasks q.settled)

abbrev pub submissions : ℕ → List Event → ℕ
submissions t [] = 0
submissions t (submit entry ∷ es) =
    let rest = submissions t es in ite (ℕ_discrete entry.task t) (suc rest) rest
submissions t (_ ∷ es) = submissions t es

abbrev pub one : ℕ → Entry → ℕ
one t e = ite (ℕ_discrete e.task t) 1 0

tasks-append : (xs ys : List Entry) → tasks (xs ++ ys) ≡ tasks xs ++ tasks ys
tasks-append [] ys = refl
tasks-append (x ∷ xs) ys = ground (arith, tasks-append xs ys)

count-insert_high :
    (t : ℕ) (e : Entry) (es : List Entry)
    → count ℕ_discrete t (tasks (insert_high e es)) ≡ one t e + count ℕ_discrete t (tasks es)
unfolding insert_high
count-insert_high t e [] = ground arith
count-insert_high t e (x ∷ es) = ground (arith, count-insert_high t e es)

count-place :
    (t : ℕ) (e : Entry) (es : List Entry)
    → count ℕ_discrete t (tasks (place e es)) ≡ one t e + count ℕ_discrete t (tasks es)
count-place t e es = ground (
  arith,
  place_lem e es,
  count-insert_high t e es,
  tasks-append es (e ∷ []),
  count-append ℕ_discrete t (tasks es) (tasks (e ∷ [])),
)

count-remove_low :
    (t : ℕ) (es : List Entry) {e : Entry} {rest : List Entry}
    → remove_low es ≡ some (e, rest)
    → count ℕ_discrete t (tasks es) ≡ one t e + count ℕ_discrete t (tasks rest)
unfolding remove_low
count-remove_low t [] h = cc
count-remove_low t (x ∷ es) h = elim (Option-cases (remove_low es)) [
  | inl p ↦ ground arith
  | inr ((found, r), p) ↦ ground (arith, count-remove_low t es p)
]

count-start_waiting :
    (t n active : ℕ) (running : List ℕ) (waiting : List Entry)
    → let s = start_waiting n active running waiting in
      count ℕ_discrete t (tasks s.waiting) + count ℕ_discrete t s.running
      ≡ count ℕ_discrete t (tasks waiting) + count ℕ_discrete t running
unfolding start_waiting
count-start_waiting t n active running [] = refl
count-start_waiting t n active running (e ∷ es) =
    ground (arith, count-start_waiting t n (active + 1) (e.task ∷ running) es)

tickets-pump : (c : Config) (t : ℕ) (q : Queue) → tickets t (pump_wait_queue c q) ≡ tickets t q
unfolding pump_wait_queue
tickets-pump c t q =
    omega (arith, count-start_waiting t (resolve_concurrency c) q.active q.running q.wait_queue)

tickets-accept :
    (c : Config) (t : ℕ) (e : Entry) (q : Queue) → tickets t (accept c e q) ≡ one t e + tickets t q
unfolding accept
tickets-accept c t e q = omega (
  arith,
  tickets-pump c t (record q { wait_queue = place e q.wait_queue }),
  count-place t e q.wait_queue,
)

pub tickets-enqueue :
    (c : Config) (t : ℕ) (entry : Entry) (q : Queue)
    → tickets t (enqueue_unbounded c entry q) ≡ one t entry + tickets t q
unfolding drop_task
tickets-enqueue c t entry q = by_case (enqueue_cases c entry q)
  where
    by_case : {r : Queue} → Enqueued c entry q r → tickets t r ≡ one t entry + tickets t q
    by_case (takes_room room e) = rw e (tickets-accept c t entry q)
    by_case (evicts victim rest full h found e) = rw e (
        ground (
          arith,
          tickets-accept c t entry (drop_task victim.task (record q { wait_queue = rest })),
          count-remove_low t q.wait_queue found,
        ))
    by_case (refuses full no_low e) = rw e (ground arith)

count-stop_running :
    (t task : ℕ) (ts : List ℕ)
    → is_running task ts ≡ true
    → count ℕ_discrete t ts
      ≡ ite (ℕ_discrete task t) 1 0 + count ℕ_discrete t (stop_running task ts)
unfolding is_running stop_running
count-stop_running t task [] h = cc
count-stop_running t task (x ∷ ts) h = ground (arith, count-stop_running t task ts)

pub tickets-finish :
    (t task : ℕ) (ok : Bool) (q : Queue) → tickets t (finish task ok q) ≡ tickets t q
unfolding finish
tickets-finish t task true q = ground (arith, count-stop_running t task q.running)
tickets-finish t task false q = ground (arith, count-stop_running t task q.running)

pub tickets-microtask :
    (c : Config) (n t : ℕ) (q : Queue) → tickets t (run_microtask c n q) ≡ tickets t q
unfolding run_microtask
tickets-microtask c zero t q = refl
tickets-microtask c (suc n) t q = tickets-pump c t (record q { pumps = n })

tickets-run :
    (c : Config) (t : ℕ) (q : Queue) (es : List Event)
    → tickets t (run c q es) ≡ tickets t q + submissions t es
unfolding run step
tickets-run c t q [] = omega arith
tickets-run c t q (submit entry ∷ es) =
    ground (arith, tickets-run c t (enqueue_unbounded c entry q) es, tickets-enqueue c t entry q)
tickets-run c t q (ends task ok ∷ es) =
    omega (arith, tickets-run c t (finish task ok q) es, tickets-finish t task ok q)
tickets-run c t q (microtask ∷ es) =
    omega (arith, tickets-run c t (run_microtask c q.pumps q) es, tickets-microtask c q.pumps t q)

-- From the empty queue, whatever happens and in whatever order, a task stands in the waiting list,
-- among the running closures and among the ended promises exactly as often, all told, as it was
-- submitted: no promise is lost and none ends twice.
pub tickets-run-empty :
    (c : Config) (t : ℕ) (es : List Event) → tickets t (run c empty es) ≡ submissions t es
unfolding empty
tickets-run-empty c t es = omega (arith, tickets-run c t empty es)
