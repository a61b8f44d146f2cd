-- ===== src/StoreQueue/Keyed/Turns.antt =====
-- A write of src/background/cache/store-queue.js takes its turn, and leaves its chain.
use aegis_stream.Prelude.Keys.{string_eq, nat_eq}
use aegis_stream.Prelude.OrdMap
use aegis_stream.Prelude.OrdMap.{OrdMap}
use aegis_stream.Prelude.{
  ℕ, ◌≤◌, ◌<◌, ◌≡◌, ap, ◌∙◌, subst, String, true, Option, none, some, List, [], ◌∷◌, ◌==◌, All,
  arith, ℕ_discrete, ==_iff, Bool-cases, Option-cases, inl, inr,
}
use aegis_stream.StoreQueue.{Entry, Config, enqueue_unbounded}
use aegis_stream.StoreQueue.Tickets.{tickets, tickets-enqueue}
use aegis_stream.StoreQueue.Keyed.{
  Link, Keyed, has_ended, is_ready, find_link, start_link, follow, drop_tail, unlink,
}
use aegis_stream.StoreQueue.Keyed.Chains.{
  endings, endings-enqueue, has_ended-endings, HasKey, SettledBelow, Follows, LinkOk, Chained,
  below_later, later_chain, drop_later,
}

-- All the keyed writes up to a settled one have settled.
pub settled_upto :
    (s : Keyed) (p : ℕ) (k : String)
    → Chained s
    → HasKey p k s.keys
    → 0 < endings p s.queue
    → (t : ℕ) → HasKey t k s.keys
    → t ≤ p
    → 0 < endings t s.queue
settled_upto s p k h has done t has_t le = elim (ℕ_discrete t p) [
  | yes same ↦ rw same done
  | no other ↦ h.serial p k has (omega (arith, done)) t has_t (omega arith)
]

-- A link whose turn has come: the writes of its key before it have settled.
pub ready_below :
    (s : Keyed) (p : Option ℕ) (n : ℕ) (k : String)
    → Chained s
    → Follows p n k s.keys s.queue
    → is_ready p s.queue ≡ true
    → SettledBelow n k s.keys s.queue
ready_below s none n k h f ready = f
ready_below s (some p) n k h f ready = λ t has lt.
    settled_upto s p k h f.0 (has_ended-endings p s.queue.settled ready) t has (f.1 t has lt)

pub find_link-All :
    (P : Link → Type 0) (task : ℕ) (ls : List Link) {l : Link}
    → find_link task ls ≡ some l
    → All P ls
    → P l
find_link-All P task [] p h = cc
find_link-All P task (x ∷ ls) {l = l} p h = elim (Bool-cases (x.task == task)) [
  | inl q ↦ let same : x ≡ l = ground (arith, p, q) in subst P same h.0
  | inr q ↦ find_link-All P task ls {l = l} (ground (arith, p, q)) h.1
]

pub start_link-Chained :
    (c : Config) (l : Link) (s : Keyed)
    → is_ready l.previous s.queue ≡ true
    → LinkOk s.keys s.next_task s.queue l
    → Chained s
    → Chained (start_link c l s)
start_link-Chained c l s ready ok h =
    let e : Entry = record { task = l.task; priority = l.priority } in
    let r = enqueue_unbounded c e s.queue in
    let mono = λ (t : ℕ). endings-enqueue c t e s.queue in
    let others : (t : ℕ) → (t ≡ l.task → ⊥) → tickets t r ≡ tickets t s.queue =
      λ t other. ground (arith, tickets-enqueue c t e s.queue, other) in
    record {
      made = h.made;
      unmade = λ t le. others t (λ p. omega (arith, p, ok.2)) ∙ h.unmade t le;
      linked = drop_later s.keys s.next_task s.queue r mono l.task s.links others h.linked;
      last = λ k.
          later_chain s.keys s.next_task s.queue r mono (OrdMap.get k s.per_key_tail) s.next_task k
            (h.last k);
      serial = λ t k has up.
          below_later s.keys s.next_task s.queue r mono t k (elim (ℕ_discrete t l.task) [
            | yes p ↦
                let key : k ≡ l.key = ground (arith, has, ok.0, p) in
                rw (p, key) (ready_below s l.previous l.task l.key h ok.3 ready)
            | no other ↦ h.serial t k has (omega (arith, up, others t other))
          ]);
    }

pub follow-Chained : (c : Config) (task : ℕ) (s : Keyed) → Chained s → Chained (follow c task s)
unfolding follow
follow-Chained c task s h = elim (Option-cases (find_link task s.links)) [
  | inl p ↦ rw (p, follow) h
  | inr (l, p) ↦ elim (Bool-cases (is_ready l.previous s.queue)) [
    | inr q ↦ rw (p, q, follow) h
    | inl q ↦
        rw (p, q, follow)
          (start_link-Chained c l s q
            (find_link-All (LinkOk s.keys s.next_task s.queue) task s.links {l = l} p h.linked) h)
  ]
]

-- The last link of a key goes when its write has settled.
pub drop_last :
    (task : ℕ) (key k : String) (s : Keyed)
    → OrdMap.get key s.per_key_tail ≡ some task
    → 0 < endings task s.queue
    → Chained s
    → Follows (OrdMap.get k (OrdMap.delete key s.per_key_tail)) s.next_task k s.keys s.queue
drop_last task key k s tail done h = elim (string_eq.dec key k) [
  | no other ↦
      let kept : OrdMap.get k (OrdMap.delete key s.per_key_tail) ≡ OrdMap.get k s.per_key_tail =
        ground (arith, OrdMap.get-delete k key s.per_key_tail, other) in
      rw kept (h.last k)
  | yes p ↦
      let gone : OrdMap.get k (OrdMap.delete key s.per_key_tail) ≡ none =
        ground (arith, OrdMap.get-delete k key s.per_key_tail, p) in
      let held : OrdMap.get k s.per_key_tail ≡ some task =
        subst (λ j. OrdMap.get j s.per_key_tail ≡ some task) p tail in
      let f = subst (λ o. Follows o s.next_task k s.keys s.queue) held (h.last k) in
      rw gone (λ t has lt. settled_upto s task k h f.0 done t has (f.1 t has lt))
]

pub drop_tail-Chained :
    (task : ℕ) (key : String) (s : Keyed)
    → 0 < endings task s.queue
    → Chained s
    → Chained (drop_tail task key s)
drop_tail-Chained task key s done h = elim (Option-cases (OrdMap.get key s.per_key_tail)) [
  | inl u ↦ rw (u, drop_tail) h
  | inr (tail, u) ↦ elim (Bool-cases (tail == task)) [
    | inr v ↦ rw (u, v, drop_tail) h
    | inl v ↦
        rw (u, v, drop_tail)
          (record {
            made = h.made;
            unmade = h.unmade;
            linked = h.linked;
            last = λ k. drop_last task key k s (u ∙ ap some ((==_iff tail task).0 v)) done h;
            serial = h.serial;
          })
  ]
]

pub unlink-Chained : (task : ℕ) (s : Keyed) → Chained s → Chained (unlink task s)
unfolding unlink
unlink-Chained task s h = elim (Option-cases (OrdMap.get task s.keys)) [
  | inl p ↦ rw (p, unlink) h
  | inr (key, p) ↦ elim (Bool-cases (has_ended task s.queue.settled)) [
    | inr q ↦ rw (p, q, unlink) h
    | inl q ↦
        rw (p, q, unlink)
          (drop_tail-Chained task key s (has_ended-endings task s.queue.settled q) h)
  ]
]
