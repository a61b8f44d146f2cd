-- ===== src/StoreQueue/Keyed/Links.antt =====
-- A new write of a key of src/background/cache/store-queue.js joins the chain of the key.
use aegis_stream.Prelude.Keys.{string_eq, nat_eq}
use aegis_stream.Prelude.OrdMap
use aegis_stream.Prelude.OrdMap.{OrdMap}
use aegis_stream.Prelude.{
  ℕ, zero, suc, ◌+◌, ◌-◌, ◌≤◌, ◌≡◌, refl, subst, String, Option, none, some, List, [], ◌∷◌, length,
  drop, All, arith, ℕ_discrete,
}
use aegis_stream.StoreQueue.{Priority}
use aegis_stream.StoreQueue.Keyed.{max_per_key_tails, Link, Keyed, add_link}
use aegis_stream.StoreQueue.Keyed.Chains.{Keys, HasKey, Follows, LinkOk, Chained}

-- The table has room for the link: `prunePerKeyTails` drops none.
abbrev pub HasRoom : Option String → Keyed → Type 0
HasRoom none s = Unit
HasRoom (some key) s = length (OrdMap.set key s.next_task s.per_key_tail) ≤ max_per_key_tails

drop-none {ℓ} : {A : Type ℓ} (n : ℕ) (xs : List A) → n ≡ 0 → drop n xs ≡ xs
drop-none zero xs h = refl
drop-none (suc n) xs h = absurd (omega arith)

-- A new write is the last of its key.
module _ (key : String) (s : Keyed) (h : Chained s) where
  abbrev new_keys : Keys
  new_keys = (s.next_task, key) ∷ s.keys

  HasKey-old :
      (t : ℕ) (k : String) → HasKey t k new_keys → (t ≡ s.next_task → ⊥) → HasKey t k s.keys
  unfolding OrdMap.get
  HasKey-old t k has other = ground (arith, has, other)

  HasKey-new : (t : ℕ) (k : String) → HasKey t k s.keys → HasKey t k new_keys
  unfolding OrdMap.get
  HasKey-new t k has = ground (arith, has, h.made t k has)

  key_of_new : HasKey s.next_task key new_keys
  unfolding OrdMap.get
  key_of_new = ground arith

  no_other_key : (k : String) → (key ≡ k → ⊥) → HasKey s.next_task k new_keys → ⊥
  unfolding OrdMap.get
  no_other_key k other has = ground (arith, other, has)

  Follows-new :
      (p : Option ℕ) (n : ℕ) (k : String)
      → n ≤ s.next_task
      → Follows p n k s.keys s.queue
      → Follows p n k new_keys s.queue
  Follows-new none n k le f = λ t has lt. f t (HasKey-old t k has (λ e. omega arith)) lt
  Follows-new (some p) n k le f =
      (HasKey-new p k f.0, λ t has lt. f.1 t (HasKey-old t k has (λ e. omega arith)) lt)

  Follows-wider :
      (p : Option ℕ) (k : String)
      → (key ≡ k → ⊥)
      → Follows p s.next_task k new_keys s.queue
      → Follows p (s.next_task + 1) k new_keys s.queue
  Follows-wider none k other f = λ t has lt. elim (ℕ_discrete t s.next_task) [
    | yes e ↦ absurd (no_other_key k other (subst (λ n. HasKey n k new_keys) e has))
    | no e ↦ f t has (omega arith)
  ]
  Follows-wider (some p) k other f = (
    f.0,
    λ t has lt. elim (ℕ_discrete t s.next_task) [
      | yes e ↦ absurd (no_other_key k other (subst (λ n. HasKey n k new_keys) e has))
      | no e ↦ f.1 t has (omega arith)
    ],
  )

  links-new :
      (ls : List Link)
      → All (LinkOk s.keys s.next_task s.queue) ls
      → All (LinkOk new_keys (s.next_task + 1) s.queue) ls
  links-new [] g = tt
  links-new (l ∷ ls) g = (
    (
      HasKey-new l.task l.key g.0.0,
      g.0.1,
      omega (arith, g.0.2),
      Follows-new l.previous l.task l.key (omega (arith, g.0.2)) g.0.3,
    ),
    links-new ls g.1,
  )

  last-new :
      (k : String)
      → Follows
          (OrdMap.get k (OrdMap.set key s.next_task s.per_key_tail))
          (s.next_task + 1)
          k
          new_keys
          s.queue
  last-new k = elim (string_eq.dec key k) [
    | yes p ↦
        let found : OrdMap.get k (OrdMap.set key s.next_task s.per_key_tail) ≡ some s.next_task =
          ground (arith, OrdMap.get-set k key s.next_task s.per_key_tail, p) in
        rw found (subst (λ j. HasKey s.next_task j new_keys) p key_of_new, λ t has lt. omega arith)
    | no other ↦
        let kept : OrdMap.get k (OrdMap.set key s.next_task s.per_key_tail)
            ≡ OrdMap.get k s.per_key_tail =
          ground (arith, OrdMap.get-set k key s.next_task s.per_key_tail, other) in
        rw kept (
          Follows-wider (OrdMap.get k s.per_key_tail) k other
            (Follows-new (OrdMap.get k s.per_key_tail) s.next_task k (omega arith) (h.last k)))
  ]

  pub add_link-Chained :
      (priority : Priority) → HasRoom (some key) s → Chained (add_link key priority s)
  add_link-Chained priority room =
      let kept =
        drop-none (length (OrdMap.set key s.next_task s.per_key_tail) - max_per_key_tails)
          (OrdMap.set key s.next_task s.per_key_tail) (omega (arith, room)) in
      record {
        made = λ t k has. elim (ℕ_discrete t s.next_task) [
          | yes e ↦ omega arith
          | no e ↦ omega (arith, h.made t k (HasKey-old t k has e))
        ];
        unmade = λ t le. h.unmade t (omega arith);
        linked = (
          (
            key_of_new,
            h.unmade s.next_task (omega arith),
            omega arith,
            Follows-new (OrdMap.get key s.per_key_tail) s.next_task key (omega arith) (h.last key),
          ),
          links-new s.links h.linked,
        );
        last = λ k. rw kept (last-new k);
        serial = λ t k has up.
            let old : t ≡ s.next_task → ⊥ = λ e. omega (arith, h.unmade t (omega arith), up) in
            let has_old = HasKey-old t k has old in
            Follows-new none t k (omega (arith, h.made t k has_old)) (h.serial t k has_old up);
      }
