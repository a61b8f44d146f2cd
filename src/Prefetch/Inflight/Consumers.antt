-- ===== src/Prefetch/Inflight/Consumers.antt =====
-- The counts of src/background/prefetch/state/inflight-consumers.js, over any run of its calls.
use aegis_stream.Prelude.Keys.{string_eq, nat_eq}
use aegis_stream.Prelude.OrdMap
use aegis_stream.Prelude.OrdMap.{OrdMap}
use aegis_stream.Prelude.{refl, List, [], ◌∷◌, arith}
use aegis_stream.Prefetch.Inflight.{Normalizers, Store}
use aegis_stream.Prefetch.Inflight.Holds.{
  attach-AllHeld, release-AllHeld, try_release-AllHeld, mutate-AllHeld, Event, new_entry, happen,
  happen_all, opens, attaches, releases, tries, mutates,
}
use aegis_stream.Prefetch.Inflight.Entries.{Held, AllHeld}

happen-AllHeld : (n : Normalizers) (e : Event) (m : Store) → AllHeld m → AllHeld (happen n e m)
happen-AllHeld n (opens key tab) m h =
    OrdMap.set-All (λ (k, e). Held e) key (new_entry tab) m
      (λ k. record { locked = refl; waits = λ q. absurd (ground (arith, q)); own = tt }) h
happen-AllHeld n (attaches url tab) m h = attach-AllHeld n url tab m h
happen-AllHeld n (releases url tab) m h = release-AllHeld n url tab m h
happen-AllHeld n (tries url defer) m h = try_release-AllHeld n url defer m h
happen-AllHeld n (mutates url delta tab) m h = mutate-AllHeld n url delta tab m h

-- Whatever happens to the in-flight prefetches, if the following held of each entry then it still
-- does: its abort lock is set exactly if a player is attached, if it waits for its release then a
-- player is attached, and no tab but the one that owns it is in its set of tabs, and that at most
-- once.
pub happen_all-AllHeld :
    (n : Normalizers) (es : List Event) (m : Store) → AllHeld m → AllHeld (happen_all n es m)
happen_all-AllHeld n [] m h = h
happen_all-AllHeld n (e ∷ es) m h = happen_all-AllHeld n es (happen n e m) (happen-AllHeld n e m h)
