-- ===== src/Coalescer/Held.antt =====
-- The consumers of src/page/network/network-fetch-coalescer.js hold the entry of a fetch that ended.
use aegis_stream.Prelude.Keys.{string_eq, nat_eq}
use aegis_stream.Prelude.OrdMap
use aegis_stream.Prelude.{ℕ, zero, suc, ◌≡◌, String, true, none, some}
use aegis_stream.Coalescer.{Wire, Wires, release_coalesce_consumer}

-- `releaseCoalesceConsumer` called several times for one key.
abbrev pub release_repeatedly : ℕ → String → Wires → Wires
release_repeatedly zero key w = w
release_repeatedly (suc n) key w =
    release_repeatedly n key (release_coalesce_consumer (some key) w).1

-- The entry at a key waits for its release and has so many consumers.
record Waiting (key : String) (n : ℕ) (w : Wires) : Type 0 where
  wire : Wire
  found : OrdMap.get key w.inflight_by_key ≡ some wire
  pending : wire.pending_release ≡ true
  counted : wire.consumers ≡ n

-- Neither an entry nor a URL is at the key.
abbrev pub IsGone : String → Wires → Type 0
IsGone key w =
    (OrdMap.get key w.inflight_by_key ≡ none) × (OrdMap.get key w.coalesce_key_to_url ≡ none)
