-- ===== src/StoreQueue/Keyed/Serial.antt =====
-- The writes of one key of src/background/cache/store-queue.js do not overlap.
use aegis_stream.Prelude.Keys.{string_eq, nat_eq}
use aegis_stream.Prelude.OrdMap
use aegis_stream.Prelude.OrdMap.{OrdMap}
use aegis_stream.Prelude.{
  ℕ, ◌+◌, ◌≤◌, ◌<◌, ◌≡◌, refl, ◌∙◌, String, Bool, true, false, Option, none, some, List, [], ◌∷◌,
  All, arith,
}
use aegis_stream.StoreQueue.{
  Priority, Entry, Config, Queue, empty, enqueue_unbounded, finish, run_microtask,
}
use aegis_stream.StoreQueue.Tickets.{tickets, tickets-enqueue, tickets-finish, tickets-microtask}
use aegis_stream.StoreQueue.Keyed.{
  Link, Keyed, no_writes, write_key, chain_write, enqueue_store_write, Event, write, follows,
  unlinks, ends, microtask, step, run,
}
use aegis_stream.StoreQueue.Keyed.Chains.{
  endings, endings-enqueue, endings-finish, endings-microtask, Keys, HasKey, Follows, LinkOk,
  Chained, below_later, later_chain, links_later, same-Chained,
}
use aegis_stream.StoreQueue.Keyed.Turns.{follow-Chained, unlink-Chained}
use aegis_stream.StoreQueue.Keyed.Links.{HasRoom, add_link-Chained}

wider_links :
    (keys : Keys) (next : ℕ) (q : Queue) (ls : List Link)
    → All (LinkOk keys next q) ls
    → All (LinkOk keys (next + 1) q) ls
wider_links keys next q [] h = tt
wider_links keys next q (l ∷ ls) h =
    ((h.0.0, h.0.1, omega (arith, h.0.2), h.0.3), wider_links keys next q ls h.1)

wider_chain :
    (p : Option ℕ) (next : ℕ) (k : String) (keys : Keys) (q : Queue)
    → ((t : ℕ) → HasKey t k keys → t < next)
    → Follows p next k keys q
    → Follows p (next + 1) k keys q
wider_chain none next k keys q made f = λ t has lt. f t has (made t has)
wider_chain (some p) next k keys q made f = (f.0, λ t has lt. f.1 t has (made t has))

-- A write without a key goes to the queue at once.
unkeyed :
    (s : Keyed) (r : Queue)
    → ((t : ℕ) → endings t s.queue ≤ endings t r)
    → ((t : ℕ) → (t ≡ s.next_task → ⊥) → tickets t r ≡ tickets t s.queue)
    → Chained s
    → Chained (record s { queue = r; next_task = s.next_task + 1 })
unkeyed s r mono others h = record {
  made = λ t k has. omega (arith, h.made t k has);
  unmade = λ t le. others t (λ e. omega arith) ∙ h.unmade t (omega arith);
  linked = wider_links s.keys s.next_task r s.links (
      links_later s.keys s.next_task s.queue r mono s.links (λ t lt. others t (λ e. omega arith))
        h.linked);
  last = λ k.
      wider_chain (OrdMap.get k s.per_key_tail) s.next_task k s.keys r (λ t has. h.made t k has)
        (later_chain s.keys s.next_task s.queue r mono (OrdMap.get k s.per_key_tail) s.next_task k
          (h.last k));
  serial = λ t k has up.
      below_later s.keys s.next_task s.queue r mono t k
        (h.serial t k has (omega (arith, up, others t (λ e. omega (arith, h.made t k has)))));
}

chain_write-Chained :
    (c : Config) (is_task : Bool) (key : Option String) (priority : Priority) (s : Keyed)
    → HasRoom key s
    → Chained s
    → Chained (chain_write c is_task key priority s)
unfolding chain_write
chain_write-Chained c false key priority s room h = h
chain_write-Chained c true (some key) priority s room h = add_link-Chained key s h priority room
chain_write-Chained c true none priority s room h =
    let e : Entry = record { task = s.next_task; priority = priority } in
    let r = enqueue_unbounded c e s.queue in
    let mono = λ (t : ℕ). endings-enqueue c t e s.queue in
    let others : (t : ℕ) → (t ≡ s.next_task → ⊥) → tickets t r ≡ tickets t s.queue =
      λ t other. ground (arith, tickets-enqueue c t e s.queue, other) in
    unkeyed s r mono others h

-- The state of the writes of a key, after any events.
abbrev pub Roomy : Config → Keyed → List Event → Type 0
Roomy c s [] = Unit
Roomy c s (write env task key priority ∷ es) =
    HasRoom (write_key env key task) s × Roomy c (step c s (write env task key priority)) es
Roomy c s (follows task ∷ es) = Roomy c (step c s (follows task)) es
Roomy c s (unlinks task ∷ es) = Roomy c (step c s (unlinks task)) es
Roomy c s (ends task ok ∷ es) = Roomy c (step c s (ends task ok)) es
Roomy c s (microtask ∷ es) = Roomy c (step c s microtask) es

run-Chained :
    (c : Config) (s : Keyed) (es : List Event) → Roomy c s es → Chained s → Chained (run c s es)
unfolding step enqueue_store_write
run-Chained c s [] room h = h
run-Chained c s (write env task key priority ∷ es) room h =
    run-Chained c (step c s (write env task key priority)) es room.1
      (chain_write-Chained c task.is_function (write_key env key task) priority s room.0 h)
run-Chained c s (follows task ∷ es) room h =
    run-Chained c (step c s (follows task)) es room (follow-Chained c task s h)
run-Chained c s (unlinks task ∷ es) room h =
    run-Chained c (step c s (unlinks task)) es room (unlink-Chained task s h)
run-Chained c s (ends task ok ∷ es) room h = run-Chained c (step c s (ends task ok)) es room (
    same-Chained s (finish task ok s.queue) (λ t. endings-finish t task ok s.queue)
      (λ t. tickets-finish t task ok s.queue) h)
run-Chained c s (microtask ∷ es) room h = run-Chained c (step c s microtask) es room (
    same-Chained s (run_microtask c s.queue.pumps s.queue)
      (λ t. endings-microtask c s.queue.pumps t s.queue)
      (λ t. tickets-microtask c s.queue.pumps t s.queue) h)

no_writes-Chained : Chained no_writes
unfolding no_writes OrdMap.get empty
no_writes-Chained = record {
  made = λ t k has. cc;
  unmade = λ t le. refl;
  linked = tt;
  last = λ k t has lt. cc;
  serial = λ t k has up. cc;
}

-- Over any events from the start, in whatever order the writes end, the promises settle and the
-- callbacks run, as long as `prunePerKeyTails` never finds more than 512 keys: when a write of a key
-- waits in the queue, runs or has ended, every write of that key made before it has ended.
pub run-serial :
    (c : Config) (es : List Event) (t u : ℕ) (key : String)
    → Roomy c no_writes es
    → OrdMap.get t (run c no_writes es).keys ≡ some key
    → OrdMap.get u (run c no_writes es).keys ≡ some key
    → t < u
    → 0 < tickets u (run c no_writes es).queue
    → 0 < endings t (run c no_writes es).queue
run-serial c es t u key room has_t has_u lt up =
    (run-Chained c no_writes es room no_writes-Chained).serial u key has_u up t has_t lt
