-- ===== src/StoreQueue/Keyed.antt =====
-- src/background/cache/store-queue.js: the chain of writes of each key, in front of the queue.
--
-- A write has the number of its promise, which is also that of its link in the chain: it waits until
-- the write before it has ended, and then goes to the queue. What runs when a promise has settled is
-- an event of its own, which may come at any later time.
mod Chains
mod Turns
pub mod Links
pub mod Serial
mod Tests
use aegis_stream.Prelude.Keys.{◌===◌, string_eq, nat_eq}
use aegis_stream.Prelude.OrdMap
use aegis_stream.Prelude.OrdMap.{OrdMap}
use aegis_stream.Prelude.{
  ℕ, ◌+◌, ◌-◌, String, Bool, true, false, not, Option, none, some, List, [], ◌∷◌, ◌++◌, ◌==◌,
  if◌then◌else◌, length, drop, retain,
}
use aegis_stream.StoreQueue.{
  Priority, Entry, Outcome, Config, Queue, empty, enqueue_unbounded, finish, run_microtask,
}

abbrev pub max_per_key_tails : ℕ
max_per_key_tails = 512

-- A write of a key whose turn has not come: `previous` is the write that it waits for.
pub record Link : Type 0 where
  pub task : ℕ
  pub key : String
  pub priority : Priority
  pub previous : Option ℕ

-- `keys` keeps the key of every write that had one; the code does not need it any more.
pub record Keyed : Type 0 where
  pub queue : Queue
  pub per_key_tail : OrdMap String ℕ
  pub links : List Link
  pub keys : OrdMap ℕ String
  pub next_task : ℕ

pub no_writes : Keyed
unfolding empty
no_writes = record { queue = empty; per_key_tail = []; links = []; keys = []; next_task = 0 }

abbrev pub prune_per_key_tails : OrdMap String ℕ → OrdMap String ℕ
prune_per_key_tails tails = drop (length tails - max_per_key_tails) tails

abbrev pub add_link : String → Priority → Keyed → Keyed
add_link key priority s = record s {
  per_key_tail = prune_per_key_tails (OrdMap.set key s.next_task s.per_key_tail);
  links =
      record {
        task = s.next_task;
        key = key;
        priority = priority;
        previous = OrdMap.get key s.per_key_tail;
      }
      ∷ s.links;
  keys = (s.next_task, key) ∷ s.keys;
  next_task = s.next_task + 1;
}

-- The function of another script, where it is there, and `x.split("#")[0]`.
pub record KeyEnv : Type 0 where
  pub strip_hash : Option (String → Option String)
  pub before_hash : String → String

-- What a task is: whether it is a function, and its properties, where they are texts.
pub record StoreTask : Type 0 where
  pub is_function : Bool
  pub store_key : Option String
  pub url : Option String

abbrev truthy : String → Option String
truthy s = if s === "" then none else some s

pub normalize_store_key : KeyEnv → Option String → Option String
normalize_store_key env none = none
normalize_store_key env (some key) =
    if key === ""
    then none
    else elim env.strip_hash [ some strip ↦ strip key | none ↦ truthy (env.before_hash key) ]

abbrev is_text : Option String → Bool
is_text none = false
is_text (some s) = not (s === "")

pub resolve_store_key : KeyEnv → StoreTask → Option String
unfolding normalize_store_key
resolve_store_key env task =
    if not task.is_function
    then none
    else if is_text task.store_key
    then normalize_store_key env task.store_key
    else if is_text task.url
    then normalize_store_key env task.url
    else none

pub write_key : KeyEnv → Option String → StoreTask → Option String
unfolding normalize_store_key resolve_store_key
write_key env key task = elim (normalize_store_key env key) [
  | some k ↦ some k
  | none ↦ resolve_store_key env task
]

-- An invalid task gets a promise of its own, resolved with an error.
pub chain_write : Config → Bool → Option String → Priority → Keyed → Keyed
chain_write c false key priority s = s
chain_write c true none priority s = record s {
  queue = enqueue_unbounded c (record { task = s.next_task; priority = priority }) s.queue;
  next_task = s.next_task + 1;
}
chain_write c true (some key) priority s = add_link key priority s

-- `key` is that of the options.
pub enqueue_store_write : Config → KeyEnv → StoreTask → Option String → Priority → Keyed → Keyed
unfolding write_key
enqueue_store_write c env task key priority s =
    chain_write c task.is_function (write_key env key task) priority s

abbrev pub has_ended : ℕ → List (ℕ × Outcome) → Bool
has_ended task [] = false
has_ended task ((t, outcome) ∷ rest) =
    let more = has_ended task rest in if t == task then true else more

abbrev pub is_ready : Option ℕ → Queue → Bool
is_ready none q = true
is_ready (some previous) q = has_ended previous q.settled

abbrev pub find_link : ℕ → List Link → Option Link
find_link task [] = none
find_link task (l ∷ ls) = if l.task == task then some l else find_link task ls

abbrev pub drop_link : ℕ → List Link → List Link
drop_link task = retain λ l. not (l.task == task)

abbrev pub start_link : Config → Link → Keyed → Keyed
start_link c l s = record s {
  queue = enqueue_unbounded c (record { task = l.task; priority = l.priority }) s.queue;
  links = drop_link l.task s.links;
}

-- `previous.then(() => enqueueUnbounded(…), …)`: the same on success and on failure.
pub follow : Config → ℕ → Keyed → Keyed
follow c task s = elim (find_link task s.links) [
  | none ↦ s
  | some l ↦ if is_ready l.previous s.queue then start_link c l s else s
]

abbrev pub drop_tail : ℕ → String → Keyed → Keyed
drop_tail task key s = elim (OrdMap.get key s.per_key_tail) [
  | none ↦ s
  | some tail ↦
      if tail == task then record s { per_key_tail = OrdMap.delete key s.per_key_tail } else s
]

-- `tracked.finally(…)`
pub unlink : ℕ → Keyed → Keyed
unlink task s = elim (OrdMap.get task s.keys) [
  | none ↦ s
  | some key ↦ if has_ended task s.queue.settled then drop_tail task key s else s
]

pub data Event : Type 0 where
  write : KeyEnv → StoreTask → Option String → Priority → Event
  follows : ℕ → Event
  unlinks : ℕ → Event
  ends : ℕ → Bool → Event
  microtask : Event

pub step : Config → Keyed → Event → Keyed
step c s (write env task key priority) = enqueue_store_write c env task key priority s
step c s (follows task) = follow c task s
step c s (unlinks task) = unlink task s
step c s (ends task ok) = record s { queue = finish task ok s.queue }
step c s microtask = record s { queue = run_microtask c s.queue.pumps s.queue }

abbrev pub run : Config → Keyed → List Event → Keyed
run c s [] = s
run c s (e ∷ es) = run c (step c s e) es
