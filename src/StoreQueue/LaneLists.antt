-- ===== src/StoreQueue/LaneLists.antt =====
-- The two lanes of the waiting entries of src/background/cache/store-queue.js, as lists.
use mathlib.Core.List.{reverse}
use aegis_stream.Prelude.{
  ℕ, zero, suc, ◌-◌, ◌≡◌, refl, sym, ap, Bool, true, false, not, List, [], ◌∷◌, ◌++◌, arith, length,
  take, drop, retain, Bool-cases, inl, inr, if◌then◌else◌,
}
use aegis_stream.StoreQueue.{Entry, Queue, is_low}
use aegis_stream.StoreQueue.Splices.{insert_high}
use aegis_stream.StoreQueue.Invariant.{AllLow, HighFirst}

abbrev pub highs : List Entry → List Entry
highs = retain λ e. not (is_low e.priority)

abbrev pub lows : List Entry → List Entry
lows = retain λ e. is_low e.priority

-- Two queues, oldest first, and the running tasks, newest first.
pub record Lanes : Type 0 where
  pub high_lane : List Entry
  pub low_lane : List Entry
  pub started : List ℕ

unfoldable pub view : Queue → Lanes
view q = record {
  high_lane = highs q.wait_queue;
  low_lane = lows q.wait_queue;
  started = q.running;
}

abbrev pub task_list : List Entry → List ℕ
task_list [] = []
task_list (e ∷ es) = e.task ∷ task_list es

-- The specification: with `free` slots, the oldest high entries start, and then the oldest low ones.
unfoldable pub start : ℕ → Lanes → Lanes
start free l = record {
  high_lane = drop free l.high_lane;
  low_lane = drop (free - length l.high_lane) l.low_lane;
  started = reverse (task_list (take free (l.high_lane ++ l.low_lane))) ++ l.started;
}

-- A new entry goes to the end of its lane.
unfoldable pub put : Entry → Lanes → Lanes
put e l =
    if is_low e.priority
    then record l { low_lane = l.low_lane ++ e ∷ [] }
    else record l { high_lane = l.high_lane ++ e ∷ [] }

-- With the oldest low entry out, `e` comes in.
unfoldable pub replace_oldest : ℕ → Entry → Lanes → List Entry → Lanes
unfolding start put
replace_oldest free e l [] = l
replace_oldest free e l (oldest ∷ rest) = start free (put e (record l { low_lane = rest }))

-- At the limit a high entry takes the place of the oldest low one; any other entry is dropped.
unfoldable pub offer : Bool → ℕ → Entry → Lanes → Lanes
unfolding replace_oldest
offer false free e l = start free (put e l)
offer true free e l = if is_low e.priority then l else replace_oldest free e l l.low_lane

pub highs_of_AllLow : (es : List Entry) → AllLow es → highs es ≡ []
highs_of_AllLow [] h = refl
highs_of_AllLow (e ∷ es) h = ground (arith, highs_of_AllLow es h.1)

pub lows_of_AllLow : (es : List Entry) → AllLow es → lows es ≡ es
lows_of_AllLow [] h = refl
lows_of_AllLow (e ∷ es) h = ground (arith, lows_of_AllLow es h.1)

-- The waiting list is its two lanes, one behind the other.
pub waiting-lanes : (es : List Entry) → HighFirst es → es ≡ highs es ++ lows es
waiting-lanes [] h = refl
waiting-lanes (e ∷ es) h = elim (Bool-cases (is_low e.priority)) [
  | inl p ↦ rw (p, highs_of_AllLow es (h.0 p), lows_of_AllLow es (h.0 p)) refl
  | inr p ↦ rw p (ap (◌∷◌ e) (waiting-lanes es h.1))
]

pub highs-insert_high :
    (e : Entry) (es : List Entry)
    → is_low e.priority ≡ false
    → HighFirst es
    → highs (insert_high e es) ≡ highs es ++ e ∷ []
unfolding insert_high
highs-insert_high e [] p h = ground arith
highs-insert_high e (x ∷ es) p h = elim (Bool-cases (is_low x.priority)) [
  | inl q ↦ ground (arith, highs_of_AllLow es (h.0 q))
  | inr q ↦ ground (arith, highs-insert_high e es p h.1)
]

pub lows-insert_high :
    (e : Entry) (es : List Entry) → is_low e.priority ≡ false → lows (insert_high e es) ≡ lows es
unfolding insert_high
lows-insert_high e [] p = ground arith
lows-insert_high e (x ∷ es) p = ground (arith, lows-insert_high e es p)

pub drop-nil : (k : ℕ) → drop {A = Entry} k [] ≡ []
drop-nil zero = refl
drop-nil (suc k) = refl

pub drop-AllLow : (k : ℕ) (es : List Entry) → AllLow es → AllLow (drop k es)
drop-AllLow zero es h = h
drop-AllLow (suc k) [] h = h
drop-AllLow (suc k) (e ∷ es) h = drop-AllLow k es h.1

pub highs-drop : (k : ℕ) (es : List Entry) → HighFirst es → highs (drop k es) ≡ drop k (highs es)
highs-drop zero es h = refl
highs-drop (suc k) [] h = refl
highs-drop (suc k) (e ∷ es) h = elim (Bool-cases (is_low e.priority)) [
  | inl p ↦
      rw (p, highs_of_AllLow es (h.0 p), highs_of_AllLow (drop k es) (drop-AllLow k es (h.0 p)))
        refl
  | inr p ↦ rw p (highs-drop k es h.1)
]

pub lows-drop :
    (k : ℕ) (es : List Entry)
    → HighFirst es
    → lows (drop k es) ≡ drop (k - length (highs es)) (lows es)
lows-drop zero es h = let z : 0 - length (highs es) ≡ 0 = omega arith in rw z refl
lows-drop (suc k) [] h = sym (drop-nil (suc k - 0))
lows-drop (suc k) (e ∷ es) h = elim (Bool-cases (is_low e.priority)) [
  | inl p ↦
      let z : suc k - 0 ≡ suc k = omega arith in
      rw
        (
          p,
          highs_of_AllLow es (h.0 p),
          z,
          lows_of_AllLow es (h.0 p),
          lows_of_AllLow (drop k es) (drop-AllLow k es (h.0 p)),
        )
        refl
  | inr p ↦
      let z : suc k - suc (length (highs es)) ≡ k - length (highs es) = omega arith in
      rw (p, z) (lows-drop k es h.1)
]

pub take-nil : (k : ℕ) → take {A = Entry} k [] ≡ []
take-nil zero = refl
take-nil (suc k) = refl
