-- ===== src/Coalescer/Delivery.antt =====
-- src/page/network/network-fetch-coalescer.js: the player's wait for a fetch of somebody else.
--
-- What the page wire, the hot cache and the worker answer comes from outside: a `Round` has the
-- answers of one pass of the loop, and the time that it took. A missing or empty text is `none`.
pub mod Waits
use aegis_stream.Prelude.{
  ℕ, ◌+◌, String, Bool, true, false, ◌&&◌, Option, none, some, List, [], ◌∷◌, ltb, ◌==◌,
  if◌then◌else◌,
}
use aegis_stream.Prelude.Texts.{codes, to_lower, includes, same_text}
use aegis_stream.Coalescer.{FetchResult, resolve_collapse_wait_timeout_ms}

pub data Via : Type 0 where
  hot_l1 cache background_wire page_wire : Via

pub record Served : Type 0 where
  pub bytes : List ℕ
  pub content_type : Option String
  pub status : Option ℕ
  pub via : Via

-- `await joinCoalescedNetworkFetch(…)`: null, a result, or an error by its name and its message, which
-- is not empty.
pub data Joined : Type 0 where
  timed_out : Joined
  gave : FetchResult → Joined
  raised : Option String → String → Joined

pub data WireAnswer : Type 0 where
  delivered : Served → WireAnswer
  no_active_wire wire_timeout : WireAnswer
  aborted : String → WireAnswer
  refused : String → WireAnswer

-- `/abort/i.test(text)`
mentions_abort : String → Bool
mentions_abort text = includes (to_lower (codes text)) (codes "abort")

abbrev default_type : Option String → Option String
default_type none = some "application/octet-stream"
default_type (some t) = some t

failed_wire : Option String → WireAnswer
unfolding mentions_abort
failed_wire none = refused "wire-empty"
failed_wire (some error) = if mentions_abort error then aborted error else refused error

bytes_or : Option (List ℕ) → Bool → Option (List ℕ)
bytes_or bytes ok = if ok then bytes else none

pub answer_of : Joined → WireAnswer
unfolding mentions_abort failed_wire bytes_or
answer_of timed_out = wire_timeout
answer_of (raised name message) = if mentions_abort message then aborted message else elim name [
  | none ↦ refused message
  | some n ↦ if same_text (codes n) (codes "AbortError") then aborted message else refused message
]
answer_of (gave result) = elim (bytes_or result.bytes result.ok) [
  | none ↦ failed_wire result.error
  | some bytes ↦ delivered (record {
    bytes = bytes;
    content_type = default_type result.content_type;
    status = none;
    via = page_wire;
  })
]

pub join_active_page_wire : Bool → Joined → WireAnswer
unfolding answer_of
join_active_page_wire active joined = if active then answer_of joined else no_active_wire

-- What `ns.getHotBytes` and `lookupCached` would answer; `from_cache` is a flag of the latter's answer.
pub record Look : Type 0 where
  pub hot : Option FetchResult
  pub cached : Option FetchResult
  pub from_cache : Bool

-- The delivery, whether `lookupCached` was called, and what was put into the hot cache.
pub record Attempt : Type 0 where
  pub delivery : Option Served
  pub looked_up : Bool
  pub stored : Option (List ℕ)

abbrev or_ok_status : Option ℕ → Option ℕ
or_ok_status none = some 200
or_ok_status (some n) = if n == 0 then some 200 else some n

abbrev pub served_bytes : Option FetchResult → Option (List ℕ)
served_bytes none = none
served_bytes (some result) = if result.ok then result.bytes else none

abbrev type_of : Option FetchResult → Option String
type_of none = none
type_of (some result) = result.content_type

abbrev status_of : Option FetchResult → Option ℕ
status_of none = none
status_of (some result) = result.status

cached_attempt : Look → Attempt
cached_attempt look = elim (served_bytes look.cached) [
  | none ↦ record { delivery = none; looked_up = true; stored = none }
  | some bytes ↦ record {
    delivery = some (record {
      bytes = bytes;
      content_type = type_of look.cached;
      status = status_of look.cached;
      via = if look.from_cache then cache else background_wire;
    });
    looked_up = true;
    stored = some bytes;
  }
]

-- `has_lookup` is `typeof lookupCached === "function"`.
pub try_hot_or_cached_delivery : Bool → Bool → Look → Attempt
unfolding cached_attempt
try_hot_or_cached_delivery has_lookup allow_ipc look = elim (served_bytes look.hot) [
  | some bytes ↦ record {
    delivery = some (record {
      bytes = bytes;
      content_type = type_of look.hot;
      status = or_ok_status (status_of look.hot);
      via = hot_l1;
    });
    looked_up = false;
    stored = none;
  }
  | none ↦
      if allow_ipc && has_lookup
      then cached_attempt look
      else record { delivery = none; looked_up = false; stored = none }
]

-- One pass: how long the race took and what won it (a rejection is `none`), then what the hot cache
-- and the worker have, and how long that took.
pub record Round : Type 0 where
  pub race_ms : ℕ
  pub raced : Option Served
  pub look : Look
  pub look_ms : ℕ

abbrev pub max_ipc_lookups : ℕ
max_ipc_lookups = 2

-- How the wait ended: the delivery, when, and how often `lookupCached` was called.
pub record Outcome : Type 0 where
  pub delivery : Option Served
  pub waited_ms : ℕ
  pub lookups : ℕ

abbrev pub count_lookup : Attempt → ℕ → ℕ
count_lookup attempt lookups = if attempt.looked_up then lookups + 1 else lookups

abbrev pub next_allowance : ℕ → ℕ
next_allowance ipc_lookups =
    if ltb ipc_lookups max_ipc_lookups then ipc_lookups + 1 else ipc_lookups

-- The loop. `waited` is `Date.now() - started`, `ipc_lookups` the counter of the code, and `lookups`
-- the calls that were made. `none` is a loop that has not ended after these rounds.
pub wait_rounds : Bool → ℕ → List Round → ℕ → ℕ → ℕ → Option Outcome
wait_rounds has_lookup timeout_ms [] waited ipc_lookups lookups =
    if ltb waited timeout_ms
    then none
    else some (record { delivery = none; waited_ms = waited; lookups = lookups })
wait_rounds has_lookup timeout_ms (r ∷ rs) waited ipc_lookups lookups =
    let raced_at = waited + r.race_ms in
    let attempt = try_hot_or_cached_delivery has_lookup (ltb ipc_lookups max_ipc_lookups) r.look in
    let rest =
      wait_rounds has_lookup timeout_ms rs (raced_at + r.look_ms) (next_allowance ipc_lookups)
        (count_lookup attempt lookups) in
    if ltb waited timeout_ms
    then elim r.raced [
      | some served ↦
          some (record { delivery = some served; waited_ms = raced_at; lookups = lookups })
      | none ↦ elim attempt.delivery [
        | some served ↦ some (record {
          delivery = some served;
          waited_ms = raced_at + r.look_ms;
          lookups = count_lookup attempt lookups;
        })
        | none ↦ rest
      ]
    ]
    else some (record { delivery = none; waited_ms = waited; lookups = lookups })

-- `awaitCollapsedNetworkDeliveryInner`, from the first attempt on.
pub await_collapsed_network_delivery :
    Bool → Option ℕ → Option ℕ → Look → ℕ → List Round → Option Outcome
unfolding try_hot_or_cached_delivery
await_collapsed_network_delivery has_lookup p95 timeout_ms first first_ms rounds =
    let attempt = try_hot_or_cached_delivery has_lookup true first in
    elim attempt.delivery [
      | some served ↦ some (record {
        delivery = some served;
        waited_ms = first_ms;
        lookups = count_lookup attempt 0;
      })
      | none ↦
          wait_rounds has_lookup (resolve_collapse_wait_timeout_ms p95 timeout_ms) rounds first_ms 1
            (count_lookup attempt 0)
    ]
