-- ===== src/StoreQueue.antt =====
-- src/background/cache/store-queue.js: the bounded queue of IndexedDB writes.
--
-- A task is a number. A promise is the number of its task; what it is resolved or rejected with
-- stands in `settled`. The closures `finish` that have not run are `running`, and the callbacks
-- handed to `queueMicrotask` that have not run are `pumps`.
mod Splices
mod Branches
pub mod Invariant
pub mod Tickets
pub mod LaneLists
pub mod Lanes
pub mod Drain
pub mod Keyed
mod Tests
use text.Mathlib.Text.{◌==◌ as str_eq}
use aegis_stream.Prelude.{
  ℕ, zero, suc, ◌+◌, ◌-◌, String, Bool, true, false, Option, none, some, List, [], ◌∷◌, max, ltb,
  leb, if◌then◌else◌, positive_or, length, ℕ_discrete, ite,
}

pub data Priority : Type 0 where
  high low : Priority

pub record Entry : Type 0 where
  pub task : ℕ
  pub priority : Priority

-- How a promise ends: with the task's value, with its error, or with the value
-- `{ ok: false, skipped: true, error: "store-queue-backpressure" }`.
pub data Outcome : Type 0 where
  completed rejected skipped : Outcome

-- What `ns.constants` holds; `none` is a value that is no finite number.
pub record Config : Type 0 where
  pub store_write_concurrency : Option ℕ
  pub store_write_max_queue_depth : Option ℕ

pub record Queue : Type 0 where
  pub active : ℕ
  pub wait_queue : List Entry
  pub rejected_tasks : ℕ
  pub completed_tasks : ℕ
  pub dropped_tasks : ℕ
  pub running : List ℕ
  pub pumps : ℕ
  pub settled : List (ℕ × Outcome)

abbrev pub default_store_write_concurrency : ℕ
default_store_write_concurrency = 4

abbrev pub default_max_queue_depth : ℕ
default_max_queue_depth = 256

unfoldable pub empty : Queue
empty = record {
  active = 0;
  wait_queue = [];
  rejected_tasks = 0;
  completed_tasks = 0;
  dropped_tasks = 0;
  running = [];
  pumps = 0;
  settled = [];
}

pub resolve_concurrency : Config → ℕ
resolve_concurrency c =
    max 1 (positive_or default_store_write_concurrency c.store_write_concurrency)

pub resolve_max_queue_depth : Config → ℕ
resolve_max_queue_depth c =
    max (resolve_concurrency c) (positive_or default_max_queue_depth c.store_write_max_queue_depth)

-- `options.priority === "high" ? "high" : "low"`
pub resolve_priority : Option String → Priority
resolve_priority none = low
resolve_priority (some p) = if str_eq p "high" then high else low

abbrev pub is_low : Priority → Bool
is_low high = false
is_low low = true

-- The loop of `pumpWaitQueue`, over what it changes.
pub record Slots : Type 0 where
  pub active : ℕ
  pub running : List ℕ
  pub waiting : List Entry

pub start_waiting : ℕ → ℕ → List ℕ → List Entry → Slots
start_waiting concurrency active running [] = record {
  active = active;
  running = running;
  waiting = [];
}
start_waiting concurrency active running (next ∷ rest) =
    let more = start_waiting concurrency (active + 1) (next.task ∷ running) rest in
    if ltb active concurrency
    then more
    else record { active = active; running = running; waiting = next ∷ rest }

pub pump_wait_queue : Config → Queue → Queue
pump_wait_queue c q = record q {
  active = slots.active;
  running = slots.running;
  wait_queue = slots.waiting;
}
  where
    slots : Slots
    slots = start_waiting (resolve_concurrency c) q.active q.running q.wait_queue

-- `waitQueue.findIndex((entry) => entry.priority !== "high")`
pub first_low : List Entry → Option ℕ
first_low [] = none
first_low (e ∷ es) =
    if is_low e.priority
    then some 0
    else elim (first_low es) [ none ↦ none | some i ↦ some (suc i) ]

-- `const [evicted] = waitQueue.splice(i, 1)`
pub splice_out : ℕ → List Entry → Option (Entry × List Entry)
splice_out i [] = none
splice_out zero (e ∷ es) = some (e, es)
splice_out (suc i) (e ∷ es) = elim (splice_out i es) [
  | none ↦ none
  | some (found, rest) ↦ some (found, e ∷ rest)
]

-- `waitQueue.splice(i, 0, entry)`
pub splice_in : ℕ → Entry → List Entry → List Entry
splice_in i entry [] = entry ∷ []
splice_in zero entry (e ∷ es) = entry ∷ e ∷ es
splice_in (suc i) entry (e ∷ es) = e ∷ splice_in i entry es

pub drop_task : ℕ → Queue → Queue
drop_task task q = record q {
  dropped_tasks = q.dropped_tasks + 1;
  settled = (task, skipped) ∷ q.settled;
}

-- `lowIndex`, and the splice at it: the waiting write that makes room, and the queue without it.
pub low_victim : Priority → List Entry → Option (Entry × List Entry)
unfolding first_low splice_out
low_victim low waiting = none
low_victim high waiting = elim (first_low waiting) [ none ↦ none | some i ↦ splice_out i waiting ]

-- The body of the promise: the entry takes its place in the queue.
place_at : Priority → Entry → List Entry → List Entry
unfolding first_low splice_in
place_at low entry waiting = splice_in (length waiting) entry waiting
place_at high entry waiting = elim (first_low waiting) [
  | some i ↦ splice_in i entry waiting
  | none ↦ splice_in (length waiting) entry waiting
]

pub place : Entry → List Entry → List Entry
unfolding place_at
place entry waiting = place_at entry.priority entry waiting

pub accept : Config → Entry → Queue → Queue
accept c entry q = pump_wait_queue c (record q { wait_queue = place entry q.wait_queue })

pub enqueue_unbounded : Config → Entry → Queue → Queue
enqueue_unbounded c entry q =
    if leb (resolve_max_queue_depth c) (length q.wait_queue + q.active)
    then elim (low_victim entry.priority q.wait_queue) [
      | some (evicted, rest) ↦
          accept c entry (drop_task evicted.task (record q { wait_queue = rest }))
      | none ↦ drop_task entry.task q
    ]
    else accept c entry q

-- `finish(ok, value)`: the flag `settled` of the closure is that its task is not in `running`.
pub is_running : ℕ → List ℕ → Bool
is_running task [] = false
is_running task (t ∷ ts) = ite (ℕ_discrete t task) true (is_running task ts)

pub stop_running : ℕ → List ℕ → List ℕ
stop_running task [] = []
stop_running task (t ∷ ts) = ite (ℕ_discrete t task) ts (t ∷ stop_running task ts)

count_finish : ℕ → Bool → Queue → Queue
count_finish task true q = record q {
  completed_tasks = q.completed_tasks + 1;
  settled = (task, completed) ∷ q.settled;
}
count_finish task false q = record q {
  rejected_tasks = q.rejected_tasks + 1;
  settled = (task, rejected) ∷ q.settled;
}

after_end : ℕ → Queue → Queue
after_end task q = record q {
  active = q.active - 1;
  running = stop_running task q.running;
  pumps = q.pumps + 1;
}

pub finish : ℕ → Bool → Queue → Queue
unfolding count_finish after_end
finish task ok q = if is_running task q.running then count_finish task ok (after_end task q) else q

-- What the event loop does to the queue: a write is submitted, a task ends, a microtask runs.
pub data Event : Type 0 where
  submit : Entry → Event
  ends : ℕ → Bool → Event
  microtask : Event

pub run_microtask : Config → ℕ → Queue → Queue
run_microtask c zero q = q
run_microtask c (suc n) q = pump_wait_queue c (record q { pumps = n })

pub step : Config → Queue → Event → Queue
step c q (submit entry) = enqueue_unbounded c entry q
step c q (ends task ok) = finish task ok q
step c q microtask = run_microtask c q.pumps q

pub run : Config → Queue → List Event → Queue
run c q [] = q
run c q (e ∷ es) = run c (step c q e) es
