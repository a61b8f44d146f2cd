-- ===== src/Prefetch/Inflight/Deferred.antt =====
-- The deferred release of src/background/prefetch/state/inflight-consumers.js.
use aegis_stream.Prelude.Keys.{string_eq}
use aegis_stream.Prelude.OrdMap
use aegis_stream.Prelude.OrdMap.{OrdMap}
use aegis_stream.Prelude.{
  ℕ, zero, suc, ◌<◌, ◌≡◌, refl, ap, ◌∙◌, String, true, false, Option, none, some, ltb, is_some,
  arith, Bool-cases, inl, inr,
}
use aegis_stream.Prefetch.Inflight.{
  Entry, Normalizers, normalize_inflight_key, count_down, Store, is_done, release_key,
  release_inflight_consumer, try_release_key, try_release_inflight_entry, release_times,
}

absent_stays :
    (n : Normalizers) (url : Option String) (key : String) (i : ℕ) (r : ℕ × Store)
    → normalize_inflight_key n url ≡ some key
    → OrdMap.get key r.1 ≡ none
    → OrdMap.has key (release_times n url none i r).1 ≡ false
unfolding release_times release_inflight_consumer release_key
absent_stays n url key zero r p q = ap is_some q
absent_stays n url key (suc i) r p q =
    absent_stays n url key i (release_inflight_consumer n url none r.1) p
      (rw (p, q, release_inflight_consumer, release_key) q)

has-release_times :
    (n : Normalizers) (url : Option String) (key : String) (i : ℕ) (r : ℕ × Store) (entry : Entry)
    → normalize_inflight_key n url ≡ some key
    → OrdMap.get key r.1 ≡ some entry
    → entry.pending_release ≡ true
    → 0 < entry.consumers
    → OrdMap.has key (release_times n url none i r).1 ≡ ltb i entry.consumers
unfolding release_times release_inflight_consumer release_key
has-release_times n url key zero r entry p q w c = rw q (ground (arith, c))
has-release_times n url key (suc i) r entry p q w c =
    elim (Bool-cases (is_done (count_down entry))) [
      | inl d ↦
          absent_stays n url key i (release_inflight_consumer n url none r.1) p
            (rw (p, q, d, release_inflight_consumer, release_key) (OrdMap.get-delete_self key r.1))
          ∙ ground (arith, d)
      | inr d ↦
          has-release_times n url key i (release_inflight_consumer n url none r.1)
            (count_down entry) p
            (rw (p, q, d, release_inflight_consumer, release_key)
              (OrdMap.get-set_self key (count_down entry) r.1))
            w (ground (arith, d, w, c))
          ∙ ground (arith, c, d, w)
    ]

-- A release that is tried while players are attached is deferred, and then done by the players: of
-- an entry with `entry.consumers > 0`, after `i` releases without a tab, the entry is there exactly
-- if `i < entry.consumers`.
pub has-release_times-try_release :
    (n : Normalizers) (url : Option String) (key : String) (i : ℕ) (m : Store) (entry : Entry)
    → normalize_inflight_key n url ≡ some key
    → OrdMap.get key m ≡ some entry
    → 0 < entry.consumers
    → OrdMap.has key (release_times n url none i (0, (try_release_inflight_entry n url true m).1)).1
      ≡ ltb i entry.consumers
unfolding try_release_inflight_entry try_release_key
has-release_times-try_release n url key i m entry p q c =
    has-release_times n url key i (0, (try_release_inflight_entry n url true m).1)
      (record entry { pending_release = true }) p
      (let positive : ltb 0 entry.consumers ≡ true = ground (arith, c) in
        rw (p, q, positive, try_release_inflight_entry, try_release_key)
          (OrdMap.get-set_self key (record entry { pending_release = true }) m))
      refl c
