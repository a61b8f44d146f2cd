-- ===== src/StoreQueue/Splices.antt =====
-- What the index searches and splices of src/background/cache/store-queue.js do to the waiting
-- list, as recursions on the list.
use aegis_stream.Prelude.{
  suc, ◌≡◌, refl, Option, none, some, List, [], ◌∷◌, ◌++◌, arith, length, if◌then◌else◌,
  Option-cases, inl, inr,
}
use aegis_stream.StoreQueue.{high, Entry, is_low, splice_in, low_victim, place_at, place}

unfoldable pub remove_low : List Entry → Option (Entry × List Entry)
remove_low [] = none
remove_low (e ∷ es) =
    if is_low e.priority
    then some (e, es)
    else elim (remove_low es) [ none ↦ none | some (found, rest) ↦ some (found, e ∷ rest) ]

unfoldable pub insert_high : Entry → List Entry → List Entry
insert_high entry [] = entry ∷ []
insert_high entry (e ∷ es) = if is_low e.priority then entry ∷ e ∷ es else e ∷ insert_high entry es

splice_in_end :
    (entry : Entry) (es : List Entry) → splice_in (length es) entry es ≡ es ++ entry ∷ []
unfolding splice_in
splice_in_end entry [] = refl
splice_in_end entry (e ∷ es) = ground (arith, splice_in_end entry es)

place_high : (entry : Entry) (es : List Entry) → place_at high entry es ≡ insert_high entry es
unfolding place_at insert_high
place_high entry [] = refl
place_high entry (e ∷ es) = ground (arith, place_high entry es)

pub low_victim-high : (es : List Entry) → low_victim high es ≡ remove_low es
unfolding low_victim remove_low
low_victim-high [] = refl
low_victim-high (e ∷ es) = ground (arith, low_victim-high es)

pub place_lem :
    (entry : Entry) (es : List Entry)
    → place entry es ≡ (if is_low entry.priority then es ++ entry ∷ [] else insert_high entry es)
unfolding place place_at
place_lem entry es = ground (arith, place_high entry es, splice_in_end entry es)

pub length-insert_high :
    (entry : Entry) (es : List Entry) → length (insert_high entry es) ≡ suc (length es)
unfolding insert_high
length-insert_high entry [] = refl
length-insert_high entry (e ∷ es) = ground (arith, length-insert_high entry es)

pub length-remove_low :
    (es : List Entry) {e : Entry} {rest : List Entry}
    → remove_low es ≡ some (e, rest)
    → length es ≡ suc (length rest)
unfolding remove_low
length-remove_low [] h = cc
length-remove_low (x ∷ es) {e} {rest} h = elim (Option-cases (remove_low es)) [
  | inl p ↦ ground arith
  | inr ((found, r), p) ↦ ground (arith, length-remove_low es p)
]
