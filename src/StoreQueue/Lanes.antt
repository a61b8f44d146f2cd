-- ===== src/StoreQueue/Lanes.antt =====
-- The waiting list of src/background/cache/store-queue.js against two plain queues, one for each
-- priority.
use mathlib.Core.List.{reverse, reverse-cons}
use aegis_stream.Prelude.{
  ℕ, suc, ◌+◌, ◌-◌, ◌≡◌, refl, sym, ap, ◌∙◌, true, false, not, none, some, List, [], ◌∷◌, ◌++◌,
  append-nil, append_assoc, arith, length, take, drop, retain-append, ltb, leb, Bool-cases,
  Option-cases, inl, inr, ◌⊎◌, if◌then◌else◌,
}
use aegis_stream.StoreQueue.{
  Priority, high, low, Entry, Config, Queue, is_low, resolve_concurrency, resolve_max_queue_depth,
  start_waiting, pump_wait_queue, drop_task, low_victim, place, accept, enqueue_unbounded,
}
use aegis_stream.StoreQueue.Branches.{Enqueued, takes_room, evicts, refuses, enqueue_cases}
use aegis_stream.StoreQueue.Splices.{remove_low, low_victim-high, place_lem}
use aegis_stream.StoreQueue.Invariant.{HighFirst, Inv, place-HighFirst, remove_low-HighFirst}
use aegis_stream.StoreQueue.LaneLists.{
  highs, lows, view, task_list, start, put, replace_oldest, offer, waiting-lanes, highs-insert_high,
  lows-insert_high, drop-nil, highs-drop, lows-drop, take-nil,
}

-- The loop of the pump starts the first `n - active` entries that wait.
start_waiting_lem :
    (n active : ℕ) (running : List ℕ) (waiting : List Entry)
    → let s = start_waiting n active running waiting in
      (s.waiting ≡ drop (n - active) waiting)
      × (s.running ≡ reverse (task_list (take (n - active) waiting)) ++ running)
unfolding start_waiting
start_waiting_lem n active running [] =
    (sym (drop-nil (n - active)), rw (take-nil (n - active)) refl)
start_waiting_lem n active running (e ∷ es) = elim (Bool-cases (ltb active n)) [
  | inl free ↦
      let k = n - (active + 1) in
      let z : n - active ≡ suc k = ground arith in
      let more = start_waiting_lem n (active + 1) (e.task ∷ running) es in
      rw (free, z)
        (
          more.0,
          more.1
              ∙ sym (
                  rw (reverse-cons e.task (task_list (take k es)))
                    (append_assoc (reverse (task_list (take k es))) (e.task ∷ []) running)),
        )
  | inr full ↦ let z : n - active ≡ 0 = ground arith in rw (full, z) (refl, refl)
]

place_lanes :
    (e : Entry) (es : List Entry)
    → HighFirst es
    → (highs (place e es) ≡ (if is_low e.priority then highs es else highs es ++ e ∷ []))
      × (lows (place e es) ≡ (if is_low e.priority then lows es ++ e ∷ [] else lows es))
place_lanes e es h = elim (Bool-cases (is_low e.priority)) [
  | inl p ↦
      rw (place_lem e es, p)
        (
          ground (
            arith,
            retain-append (λ (x : Entry). not (is_low x.priority)) es (e ∷ []),
            append-nil (highs es),
          ),
          ground (arith, retain-append (λ (x : Entry). is_low x.priority) es (e ∷ [])),
        )
  | inr p ↦ rw (place_lem e es, p) (highs-insert_high e es p h, lows-insert_high e es p)
]

-- Taking the first low entry out takes the oldest of the low lane, and leaves the high lane.
remove_low_lanes :
    (es : List Entry) {v : Entry} {rest : List Entry}
    → remove_low es ≡ some (v, rest)
    → (highs rest ≡ highs es) × (lows es ≡ v ∷ lows rest)
unfolding remove_low
remove_low_lanes [] h = cc
remove_low_lanes (x ∷ es) h = elim (Option-cases (remove_low es)) [
  | inl p ↦ ground arith
  | inr ((found, r), p) ↦ ground (arith, remove_low_lanes es p)
]

remove_low-eq-none : (es : List Entry) → remove_low es ≡ none → lows es ≡ []
unfolding remove_low
remove_low-eq-none [] h = refl
remove_low-eq-none (x ∷ es) h = ground (arith, remove_low-eq-none es)

view-pump :
    (c : Config) (q : Queue)
    → HighFirst q.wait_queue
    → view (pump_wait_queue c q) ≡ start (resolve_concurrency c - q.active) (view q)
unfolding view pump_wait_queue start
view-pump c q h =
    let n = resolve_concurrency c in
    let k = n - q.active in
    let s = start_waiting_lem n q.active q.running q.wait_queue in
    let hs = ap highs s.0 ∙ highs-drop k q.wait_queue h in
    let ls = ap lows s.0 ∙ lows-drop k q.wait_queue h in
    let started =
      s.1
      ∙ ap (λ (w : List Entry). reverse (task_list (take k w)) ++ q.running)
          (waiting-lanes q.wait_queue h) in
    λ i. record { high_lane = hs i; low_lane = ls i; started = started i }

view-place :
    (e : Entry) (q : Queue)
    → HighFirst q.wait_queue
    → view (record q { wait_queue = place e q.wait_queue }) ≡ put e (view q)
unfolding view put
view-place e q h =
    let lanes = place_lanes e q.wait_queue h in
    elim (Bool-cases (is_low e.priority)) [ inl p ↦ ground arith | inr p ↦ ground arith ]

view-accept :
    (c : Config) (e : Entry) (q : Queue)
    → HighFirst q.wait_queue
    → view (accept c e q) ≡ start (resolve_concurrency c - q.active) (put e (view q))
unfolding accept
view-accept c e q h =
    view-pump c (record q { wait_queue = place e q.wait_queue }) (place-HighFirst e q.wait_queue h)
    ∙ ap (start (resolve_concurrency c - q.active)) (view-place e q h)

view-evict :
    (c : Config) (e : Entry) (q : Queue) {v : Entry} {rest : List Entry}
    → HighFirst q.wait_queue
    → remove_low q.wait_queue ≡ some (v, rest)
    → view (accept c e (drop_task v.task (record q { wait_queue = rest })))
      ≡ replace_oldest (resolve_concurrency c - q.active) e (view q) (lows q.wait_queue)
unfolding replace_oldest view drop_task
view-evict c e q {v} {rest} h found =
    let lanes = remove_low_lanes q.wait_queue found in
    rw (lanes.1, ← lanes.0)
      (view-accept c e (drop_task v.task (record q { wait_queue = rest }))
        (remove_low-HighFirst q.wait_queue found h))

no_victim :
    (p : Priority) (es : List Entry)
    → low_victim p es ≡ none
    → (is_low p ≡ true) ⊎ ((is_low p ≡ false) × (lows es ≡ []))
no_victim low es h = inl refl
no_victim high es h = inr (refl, remove_low-eq-none es (rw (← low_victim-high es) h))

view-refuse :
    (c : Config) (free : ℕ) (e : Entry) (q : Queue)
    → low_victim e.priority q.wait_queue ≡ none
    → view q ≡ offer true free e (view q)
unfolding offer view replace_oldest
view-refuse c free e q h = elim (no_victim e.priority q.wait_queue h) [
  | inl p ↦ rw p refl
  | inr (p, nothing) ↦ rw (p, nothing) refl
]

-- On a well-formed queue `enqueueUnbounded` is the specification's `offer`: the two classes are
-- queues of their own, a waiting high entry starts before every low one, and at the limit a high
-- entry pushes out the oldest low one while any other entry is dropped.
pub view-enqueue :
    (c : Config) (e : Entry) (q : Queue)
    → Inv c q
    → view (enqueue_unbounded c e q)
      ≡ offer
          (leb (resolve_max_queue_depth c) (length q.wait_queue + q.active))
          (resolve_concurrency c - q.active)
          e
          (view q)
unfolding offer view drop_task
view-enqueue c e q v = by_case (enqueue_cases c e q)
  where
    by_case :
        {r : Queue}
        → Enqueued c e q r
        → view r
          ≡ offer
              (leb (resolve_max_queue_depth c) (length q.wait_queue + q.active))
              (resolve_concurrency c - q.active)
              e
              (view q)
    by_case (takes_room room h) =
        let t : leb (resolve_max_queue_depth c) (length q.wait_queue + q.active) ≡ false =
          ground arith in
        rw (h, t) (view-accept c e q v.high_first)
    by_case (evicts victim rest full high_entry found h) =
        let t : leb (resolve_max_queue_depth c) (length q.wait_queue + q.active) ≡ true =
          ground arith in
        rw (h, t, ap is_low high_entry) (view-evict c e q v.high_first found)
    by_case (refuses full no_low h) =
        let t : leb (resolve_max_queue_depth c) (length q.wait_queue + q.active) ≡ true =
          ground arith in
        rw (h, t) (view-refuse c (resolve_concurrency c - q.active) e q no_low)
