-- ===== src/Eviction/Batches.antt =====
-- What the loop of the eviction pass in src/background/cache/db.js keeps.
use aegis_stream.Prelude.Keys.{string_eq}
use aegis_stream.Prelude.OrdSet
use aegis_stream.Prelude.{
  ℕ, ◌+◌, ◌≤◌, ◌≡◌, refl, sym, ap, ◌∙◌, String, true, false, inl, inr, List, [], ◌∷◌, ◌++◌, length,
  length-append, append-nil, append_assoc, arith, Bool-cases, if◌then◌else◌,
}
use aegis_stream.Eviction.Guards.{Keys, is_url_guard_ring_protected}
use aegis_stream.Eviction.Plans.{Item, Plan, Protected, is_over, consider, is_done, plan_items}

-- No URL that is protected is planned for deletion.
abbrev pub AllFree : Keys → Protected → List String → Type 0
AllFree keys sets [] = Unit
AllFree keys sets (url ∷ urls) =
    (is_url_guard_ring_protected keys url sets.tier_a_set ≡ false) × AllFree keys sets urls

append-AllFree :
    (keys : Keys) (sets : Protected) (urls : List String) (url : String)
    → AllFree keys sets urls
    → is_url_guard_ring_protected keys url sets.tier_a_set ≡ false
    → AllFree keys sets (urls ++ url ∷ [])
append-AllFree keys sets [] url h k = (k, tt)
append-AllFree keys sets (u ∷ us) url h k = (h.0, append-AllFree keys sets us url h.1 k)

pub free_of_protected :
    (keys : Keys) (sets : Protected) (urls : List String) (url : String)
    → AllFree keys sets urls
    → is_url_guard_ring_protected keys url sets.tier_a_set ≡ true
    → OrdSet.has url urls ≡ false
unfolding OrdSet.has
free_of_protected keys sets [] url h k = refl
free_of_protected keys sets (u ∷ us) url h k = elim (string_eq.dec u url) [
  | yes same ↦
      let e = ap (λ x. is_url_guard_ring_protected keys x sets.tier_a_set) same in
      absurd (ground (arith, e, h.0, k))
  | no differ ↦ ground (arith, differ, free_of_protected keys sets us url h.1 k)
]

-- The plan of the loop: its keys are free and no more than the batch, and it accounts for what it
-- takes off the overflow.
pub record Sound (keys : Keys) (sets : Protected) (max_deletes entries bytes : ℕ) (p : Plan)
    : Type 0 where
  pub free : AllFree keys sets p.keys_to_delete
  pub batch : length p.keys_to_delete ≤ max_deletes
  pub counted : entries ≤ p.overflow_entries + length p.keys_to_delete
  pub measured : bytes ≤ p.overflow_bytes + p.reclaimed_bytes

consider-Sound :
    (keys : Keys) (sets : Protected) (max_deletes entries bytes : ℕ) (item : Item) (p : Plan)
    → Sound keys sets max_deletes entries bytes p
    → is_done max_deletes p ≡ false
    → Sound keys sets max_deletes entries bytes (consider keys sets item p)
unfolding consider
consider-Sound keys sets max_deletes entries bytes item p h more =
    elim (Bool-cases (is_url_guard_ring_protected keys item.url sets.tier_a_set)) [
      | inl q ↦
          rw q
            (record { free = h.free; batch = h.batch; counted = h.counted; measured = h.measured })
      | inr q ↦ rw q (record {
        free = append-AllFree keys sets p.keys_to_delete item.url h.free q;
        batch = ground (arith, length-append p.keys_to_delete (item.url ∷ []), more);
        counted = omega (arith, h.counted, length-append p.keys_to_delete (item.url ∷ []));
        measured = omega (arith, h.measured);
      })
    ]

pub plan_items-Sound :
    (keys : Keys) (sets : Protected) (max_deletes entries bytes : ℕ) (items : List Item) (p : Plan)
    → Sound keys sets max_deletes entries bytes p
    → Sound keys sets max_deletes entries bytes (plan_items keys sets max_deletes items p)
unfolding plan_items
plan_items-Sound keys sets max_deletes entries bytes [] p h = h
plan_items-Sound keys sets max_deletes entries bytes (item ∷ items) p h =
    elim (Bool-cases (is_done max_deletes p)) [
      | inl q ↦ rw q h
      | inr q ↦ rw q (
          plan_items-Sound keys sets max_deletes entries bytes items (consider keys sets item p)
            (consider-Sound keys sets max_deletes entries bytes item p h q))
    ]

-- The URLs of the order that are not protected, as far as the loop goes over all of it.
abbrev pub free_urls : Keys → Protected → List Item → List String
free_urls keys sets [] = []
free_urls keys sets (item ∷ items) =
    let rest = free_urls keys sets items in
    if is_url_guard_ring_protected keys item.url sets.tier_a_set then rest else item.url ∷ rest

-- Why the loop stops: nothing is over any more, the batch is full, or the order is used up.
pub data Stopped (keys : Keys) (sets : Protected) (max_deletes : ℕ) (items : List Item) (p r : Plan)
    : Type 0 where
  enough : is_over r ≡ false → Stopped keys sets max_deletes items p r
  full : max_deletes ≤ length r.keys_to_delete → Stopped keys sets max_deletes items p r
  used_up :
      r.keys_to_delete ≡ p.keys_to_delete ++ free_urls keys sets items
      → Stopped keys sets max_deletes items p r

done-Stopped :
    (keys : Keys) (sets : Protected) (max_deletes : ℕ) (items : List Item) (p : Plan)
    → is_done max_deletes p ≡ true
    → Stopped keys sets max_deletes items p p
done-Stopped keys sets max_deletes items p h = elim (Bool-cases (is_over p)) [
  | inr q ↦ enough q
  | inl q ↦ full (ground (arith, h, q))
]

considered :
    (keys : Keys) (sets : Protected) (item : Item) (items : List Item) (p : Plan)
    → (consider keys sets item p).keys_to_delete ++ free_urls keys sets items
      ≡ p.keys_to_delete ++ free_urls keys sets (item ∷ items)
unfolding consider
considered keys sets item items p =
    elim (Bool-cases (is_url_guard_ring_protected keys item.url sets.tier_a_set)) [
      | inl q ↦ rw q refl
      | inr q ↦ rw q (append_assoc p.keys_to_delete (item.url ∷ []) (free_urls keys sets items))
    ]

consider-Stopped :
    (keys : Keys) (sets : Protected) (max_deletes : ℕ) (item : Item) (items : List Item)
    (p r : Plan)
    → Stopped keys sets max_deletes items (consider keys sets item p) r
    → Stopped keys sets max_deletes (item ∷ items) p r
consider-Stopped keys sets max_deletes item items p r (enough h) = enough h
consider-Stopped keys sets max_deletes item items p r (full h) = full h
consider-Stopped keys sets max_deletes item items p r (used_up h) =
    used_up (h ∙ considered keys sets item items p)

pub plan_items-Stopped :
    (keys : Keys) (sets : Protected) (max_deletes : ℕ) (items : List Item) (p : Plan)
    → Stopped keys sets max_deletes items p (plan_items keys sets max_deletes items p)
unfolding plan_items
plan_items-Stopped keys sets max_deletes [] p = used_up (sym (append-nil p.keys_to_delete))
plan_items-Stopped keys sets max_deletes (item ∷ items) p =
    elim (Bool-cases (is_done max_deletes p)) [
      | inl q ↦ rw q (done-Stopped keys sets max_deletes (item ∷ items) p q)
      | inr q ↦
          let next = consider keys sets item p in
          rw q (
            consider-Stopped keys sets max_deletes item items p
              (plan_items keys sets max_deletes items next)
              (plan_items-Stopped keys sets max_deletes items next))
    ]
