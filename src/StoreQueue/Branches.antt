-- ===== src/StoreQueue/Branches.antt =====
-- The three ways `enqueueUnbounded` (src/background/cache/store-queue.js) ends.
use aegis_stream.Prelude.{
  ◌+◌, ◌≤◌, ◌<◌, ◌≡◌, List, none, some, arith, length, leb, Bool-cases, Option-cases, inl, inr,
}
use aegis_stream.StoreQueue.{
  high, Entry, Config, Queue, resolve_max_queue_depth, drop_task, low_victim, accept,
  enqueue_unbounded,
}
use aegis_stream.StoreQueue.Splices.{remove_low, low_victim-high}

pub data Enqueued (c : Config) (entry : Entry) (q r : Queue) : Type 0 where
  -- There is room.
  takes_room :
      length q.wait_queue + q.active < resolve_max_queue_depth c
      → r ≡ accept c entry q
      → Enqueued c entry q r
  -- A high entry pushes the first waiting low entry out.
  evicts :
      (victim : Entry) (rest : List Entry)
      → resolve_max_queue_depth c ≤ length q.wait_queue + q.active
      → entry.priority ≡ high
      → remove_low q.wait_queue ≡ some (victim, rest)
      → r ≡ accept c entry (drop_task victim.task (record q { wait_queue = rest }))
      → Enqueued c entry q r
  -- The entry itself is dropped.
  refuses :
      resolve_max_queue_depth c ≤ length q.wait_queue + q.active
      → low_victim entry.priority q.wait_queue ≡ none
      → r ≡ drop_task entry.task q
      → Enqueued c entry q r

low_victim-some :
    (entry : Entry) (es : List Entry) {v : Entry × List Entry}
    → low_victim entry.priority es ≡ some v
    → (entry.priority ≡ high) × (remove_low es ≡ some v)
unfolding low_victim
low_victim-some entry es h = ground (arith, low_victim-high es)

pub enqueue_cases :
    (c : Config) (entry : Entry) (q : Queue) → Enqueued c entry q (enqueue_unbounded c entry q)
unfolding enqueue_unbounded
enqueue_cases c entry q =
    elim (Bool-cases (leb (resolve_max_queue_depth c) (length q.wait_queue + q.active))) [
      | inr room ↦ takes_room (ground arith) (rw (room, enqueue_unbounded))
      | inl full ↦ elim (Option-cases (low_victim entry.priority q.wait_queue)) [
        | inl p ↦ refuses (ground arith) p (rw (full, enqueue_unbounded) (rw p))
        | inr ((victim, rest), p) ↦
            let s = low_victim-some entry q.wait_queue p in
            evicts victim rest (ground arith) s.0 s.1 (rw (full, enqueue_unbounded) (rw p))
      ]
    ]
