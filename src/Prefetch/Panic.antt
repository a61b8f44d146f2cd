-- ===== src/Prefetch/Panic.antt =====
-- src/background/prefetch/policy/network-panic-policy.js: a wider window while the network is slow.
--
-- The samples are whole milliseconds, so `Math.round` changes nothing. A constant that is no number
-- is `none`. What is sent to the tabs is counted in `broadcasts`.
pub mod Band
use aegis_stream.Prelude.{
  ℕ, zero, suc, ◌+◌, ◌-◌, ◌*◌, ◌/◌, Bool, true, false, Option, none, some, List, [], ◌∷◌, ltb, leb,
  if◌then◌else◌, length, get_elem?, sort, nonzero_or, min, max,
}

pub record Constants : Type 0 where
  pub ttfb_panic_min_network_samples : Option ℕ
  pub ttfb_panic_enter_p95_ms : Option ℕ
  pub ttfb_panic_exit_p95_ms : Option ℕ
  pub panic_prefetch_window : Option ℕ
  pub panic_target_runway_sec : Option ℕ

pub record NetworkPanic : Type 0 where
  pub active : Bool
  pub activated_at : ℕ
  pub cleared_at : ℕ
  pub network_p95_ms : ℕ
  pub prefetch_window : Option ℕ
  pub target_runway_sec : Option ℕ

pub record Stats : Type 0 where
  pub network_first_byte_p95_ms : ℕ
  pub network_panic_active : ℕ

pub record State : Type 0 where
  pub network_panic : Option NetworkPanic
  pub first_byte_network : List ℕ
  pub stats : Stats
  pub broadcasts : ℕ

unfoldable pub create_network_panic_state : Constants → NetworkPanic
create_network_panic_state c = record {
  active = false;
  activated_at = 0;
  cleared_at = 0;
  network_p95_ms = 0;
  prefetch_window = some (nonzero_or 20 c.panic_prefetch_window);
  target_runway_sec = some (nonzero_or 180 c.panic_target_runway_sec);
}

-- `Math.min(n - 1, Math.max(0, Math.floor(0.95 * (n - 1))))`
abbrev pub p95_index : ℕ → ℕ
p95_index n = min (n - 1) (95 * (n - 1) / 100)

abbrev value_or_zero : Option ℕ → ℕ
value_or_zero none = 0
value_or_zero (some v) = v

unfoldable pub get_network_p95_ms : List ℕ → ℕ
get_network_p95_ms network = value_or_zero (get_elem? (sort network) (p95_index (length network)))

unfoldable pub is_network_panic_active : State → Bool
is_network_panic_active s = elim s.network_panic [ none ↦ false | some panic ↦ panic.active ]

abbrev pub min_samples : Constants → ℕ
min_samples c = max 4 (nonzero_or 12 c.ttfb_panic_min_network_samples)

abbrev pub enter_at : Constants → ℕ
enter_at c = nonzero_or 3_000 c.ttfb_panic_enter_p95_ms

abbrev pub exit_at : Constants → ℕ
exit_at c = nonzero_or 2_400 c.ttfb_panic_exit_p95_ms

unfoldable pub should_activate : Constants → List ℕ → ℕ → Bool → Bool
should_activate c network p95 was_active =
    if leb (min_samples c) (length network)
    then (if was_active then leb (exit_at c) p95 else leb (enter_at c) p95)
    else was_active

abbrev pub as_number : Bool → ℕ
as_number true = 1
as_number false = 0

-- The record after the values that are set in any case.
abbrev pub measured : Constants → ℕ → NetworkPanic → NetworkPanic
measured c p95 panic = record panic {
  network_p95_ms = p95;
  prefetch_window = c.panic_prefetch_window;
  target_runway_sec = c.panic_target_runway_sec;
}

unfoldable pub switch : ℕ → Bool → NetworkPanic → NetworkPanic
switch now true panic = record panic { active = true; activated_at = now; cleared_at = 0 }
switch now false panic = record panic { active = false; cleared_at = now }

abbrev pub same_flag : Bool → Bool → Bool
same_flag true b = b
same_flag false true = false
same_flag false false = true

unfoldable pub settle_panic : ℕ → Bool → NetworkPanic → ℕ → State → Bool × State
unfolding switch
settle_panic now activate panic p95 s =
    let stats : Stats = record {
      network_first_byte_p95_ms = p95;
      network_panic_active = as_number activate;
    } in
    if same_flag activate panic.active
    then (panic.active, record s { network_panic = some panic; stats = stats })
    else (
      activate,
      record s {
        network_panic = some (switch now activate panic);
        stats = stats;
        broadcasts = s.broadcasts + 1;
      },
    )

abbrev pub panic_of : Constants → Option NetworkPanic → NetworkPanic
panic_of c none = create_network_panic_state c
panic_of c (some panic) = panic

unfoldable pub sync_network_panic_mode : Constants → ℕ → State → Bool × State
unfolding get_network_p95_ms should_activate settle_panic create_network_panic_state
sync_network_panic_mode c now s =
    let panic = panic_of c s.network_panic in
    let p95 = get_network_p95_ms s.first_byte_network in
    settle_panic now (should_activate c s.first_byte_network p95 panic.active)
      (measured c p95 panic) p95 s

unfoldable pub resolve_panic_adjusted_prefetch_window : Constants → State → ℕ → ℕ
unfolding is_network_panic_active
resolve_panic_adjusted_prefetch_window c s base_window =
    if is_network_panic_active s
    then max base_window (max 1 (nonzero_or 20 c.panic_prefetch_window))
    else base_window

unfoldable pub resolve_panic_adjusted_global_cap : State → ℕ → ℕ
unfolding is_network_panic_active
resolve_panic_adjusted_global_cap s base_cap =
    if is_network_panic_active s then min 24 (max base_cap (base_cap + 6)) else base_cap
