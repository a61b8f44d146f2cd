-- ===== src/StoreQueue/Keyed/Chains.antt =====
-- The chains of the keys of src/background/cache/store-queue.js, and the queue that moves on.
use aegis_stream.Prelude.Keys.{string_eq, nat_eq}
use aegis_stream.Prelude.OrdMap
use aegis_stream.Prelude.OrdMap.{OrdMap}
use aegis_stream.Prelude.{
  ℕ, zero, suc, ◌≤◌, ◌<◌, ◌≡◌, ◌∙◌, String, Bool, true, false, Option, none, some, List, [], ◌∷◌,
  ◌==◌, All, arith, count, ℕ_discrete, Bool-cases, inl, inr,
}
use aegis_stream.StoreQueue.{
  Entry, Outcome, Config, Queue, enqueue_unbounded, accept, pump_wait_queue, drop_task, finish,
  run_microtask,
}
use aegis_stream.StoreQueue.Branches.{Enqueued, takes_room, evicts, refuses, enqueue_cases}
use aegis_stream.StoreQueue.Tickets.{ended_tasks, tickets}
use aegis_stream.StoreQueue.Keyed.{Link, Keyed, has_ended, drop_link}

-- How often the promise of a task has settled.
abbrev pub endings : ℕ → Queue → ℕ
endings t q = count ℕ_discrete t (ended_tasks q.settled)

-- Settled promises stay settled.
pub endings-enqueue :
    (c : Config) (t : ℕ) (e : Entry) (q : Queue) → endings t q ≤ endings t (enqueue_unbounded c e q)
unfolding accept pump_wait_queue drop_task
endings-enqueue c t e q = by_case (enqueue_cases c e q)
  where
    by_case : {r : Queue} → Enqueued c e q r → endings t q ≤ endings t r
    by_case (takes_room room p) = rw p (omega arith)
    by_case (evicts victim rest full h found p) = rw p (ground arith)
    by_case (refuses full no_low p) = rw p (ground arith)

pub endings-finish :
    (t task : ℕ) (ok : Bool) (q : Queue) → endings t q ≤ endings t (finish task ok q)
unfolding finish
endings-finish t task true q = ground arith
endings-finish t task false q = ground arith

pub endings-microtask :
    (c : Config) (n t : ℕ) (q : Queue) → endings t q ≤ endings t (run_microtask c n q)
unfolding run_microtask pump_wait_queue
endings-microtask c zero t q = omega arith
endings-microtask c (suc n) t q = omega arith

pub has_ended-endings :
    (t : ℕ) (settled : List (ℕ × Outcome))
    → has_ended t settled ≡ true
    → 0 < count ℕ_discrete t (ended_tasks settled)
has_ended-endings t [] h = cc
has_ended-endings t ((u, outcome) ∷ rest) h = ground (arith, has_ended-endings t rest)

-- The keys that the writes were made with.
abbrev pub Keys : Type 0
Keys = OrdMap ℕ String

abbrev pub HasKey : ℕ → String → Keys → Type 0
HasKey t k keys = OrdMap.get t keys ≡ some k

-- All the writes of a key before one of them have settled.
abbrev pub SettledBelow : ℕ → String → Keys → Queue → Type 0
SettledBelow n k keys q = (t : ℕ) → HasKey t k keys → t < n → 0 < endings t q

-- The link waits for the last write of its key before it, or all of those have settled.
abbrev pub Follows : Option ℕ → ℕ → String → Keys → Queue → Type 0
Follows none n k keys q = SettledBelow n k keys q
Follows (some p) n k keys q = HasKey p k keys × ((t : ℕ) → HasKey t k keys → t < n → t ≤ p)

abbrev pub LinkOk : Keys → ℕ → Queue → Link → Type 0
LinkOk keys next q l =
    HasKey l.task l.key keys
    × (tickets l.task q ≡ 0)
    × (l.task < next)
    × Follows l.previous l.task l.key keys q

pub record Chained (s : Keyed) : Type 0 where
  pub made : (t : ℕ) (k : String) → HasKey t k s.keys → t < s.next_task
  pub unmade : (t : ℕ) → s.next_task ≤ t → tickets t s.queue ≡ 0
  pub linked : All (LinkOk s.keys s.next_task s.queue) s.links
  pub last : (k : String) → Follows (OrdMap.get k s.per_key_tail) s.next_task k s.keys s.queue
  pub serial :
      (t : ℕ) (k : String)
      → HasKey t k s.keys
      → 0 < tickets t s.queue
      → SettledBelow t k s.keys s.queue

-- The queue moves on, and its settled promises stay settled.
module _ (keys : Keys) (next : ℕ) (q r : Queue) (mono : (t : ℕ) → endings t q ≤ endings t r) where
  pub below_later : (n : ℕ) (k : String) → SettledBelow n k keys q → SettledBelow n k keys r
  below_later n k h t has lt = omega (arith, h t has lt, mono t)

  pub later_chain :
      (p : Option ℕ) (n : ℕ) (k : String) → Follows p n k keys q → Follows p n k keys r
  later_chain none n k h = below_later n k h
  later_chain (some p) n k h = h

  pub links_later :
      (ls : List Link)
      → ((t : ℕ) → t < next → tickets t r ≡ tickets t q)
      → All (LinkOk keys next q) ls
      → All (LinkOk keys next r) ls
  links_later [] same h = tt
  links_later (l ∷ ls) same h = (
    (h.0.0, same l.task h.0.2 ∙ h.0.1, h.0.2, later_chain l.previous l.task l.key h.0.3),
    links_later ls same h.1,
  )

  pub drop_later :
      (u : ℕ) (ls : List Link)
      → ((t : ℕ) → (t ≡ u → ⊥) → tickets t r ≡ tickets t q)
      → All (LinkOk keys next q) ls
      → All (LinkOk keys next r) (drop_link u ls)
  drop_later u [] same h = tt
  drop_later u (l ∷ ls) same h = elim (Bool-cases (l.task == u)) [
    | inl p ↦ rw p (drop_later u ls same h.1)
    | inr p ↦ rw p (
      (
        h.0.0,
        same l.task (λ e. ground (arith, p, e)) ∙ h.0.1,
        h.0.2,
        later_chain l.previous l.task l.key h.0.3,
      ),
      drop_later u ls same h.1,
    )
  ]

-- The queue moves and no write enters it.
pub same-Chained :
    (s : Keyed) (r : Queue)
    → ((t : ℕ) → endings t s.queue ≤ endings t r)
    → ((t : ℕ) → tickets t r ≡ tickets t s.queue)
    → Chained s
    → Chained (record s { queue = r })
same-Chained s r mono same h = record {
  made = h.made;
  unmade = λ t le. same t ∙ h.unmade t le;
  linked = links_later s.keys s.next_task s.queue r mono s.links (λ t lt. same t) h.linked;
  last = λ k.
      later_chain s.keys s.next_task s.queue r mono (OrdMap.get k s.per_key_tail) s.next_task k
        (h.last k);
  serial = λ t k has up.
      below_later s.keys s.next_task s.queue r mono t k
        (h.serial t k has (omega (arith, up, same t)));
}
