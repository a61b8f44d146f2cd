-- ===== src/HotBytes/Tests.antt =====
-- Runs of src/page/cache/hot-byte-cache.js on small inputs.
use aegis_stream.Prelude.Keys.{string_eq}
use aegis_stream.HotBytes.Stakes.{stakes}
use aegis_stream.HotBytes.Awaited.{asks_all, stakes-run_calls}
use aegis_stream.Prelude.{◌+◌, ◌≤◌, ◌≡◌, ℕ, refl, true, none, some, List, [], ◌∷◌, arith}
use aegis_stream.HotBytes.Resolving.{Resolvers}
use aegis_stream.HotBytes.Store.{Cache, Env, array_buffer, drop_expired, evict_overflow}
use aegis_stream.HotBytes.Methods.{Meta}
use aegis_stream.HotBytes.Crowded.{Crowded, run_calls-Crowded}
use aegis_stream.HotBytes.Overflow.{Trimmed, evict_overflow-Trimmed}
use aegis_stream.HotBytes.Kept.{Inv}
use aegis_stream.HotBytes.Runs.{Call, put, get, await, alias, run_calls, run_calls-Inv}
use aegis_stream.Prelude.OrdMap
use aegis_stream.HotBytes.Resolving.{resolve_hot_key, is_canonical_coalesce_key}
use aegis_stream.HotBytes.Store.{is_serving_enabled, clone_bytes}
use aegis_stream.HotBytes.Methods.{put_hot_bytes, get_hot_bytes, new_entry}
use aegis_stream.HotBytes.Served.{payload_of, get_hot_bytes-put_hot_bytes}

abbrev no_resolvers : Resolvers
no_resolvers = record {
  resolve_network_coalesce_key = none;
  resolve_canonical_coalesce_key = none;
  build_media_invariant_key = none;
  strip_hash = some λ s. some s;
  before_hash = λ s. s;
}

abbrev at : ℕ → Env
at now = record {
  extension_enabled = true;
  serve_from_cache = true;
  resolvers = no_resolvers;
  now = now;
}

abbrev no_meta : Meta
no_meta = record {
  cache_key = none;
  alias_key = none;
  page_url = none;
  content_type = none;
  status = none;
}

abbrev fresh : Cache
fresh = record { entries = []; aliases = []; total_bytes = 0; waiters_by_key = []; woken = [] }

fresh-Inv : Inv fresh
fresh-Inv = record {
  books = record { is_map = tt; sized = tt; counted = refl };
  few = omega arith;
  small = omega arith;
  few_aliases = omega arith;
}

-- A waiter, the put that wakes it, an alias, a lookup through the alias, and a second put.
abbrev session : List Call
session =
    await (at 10) (some "seg1") none 7
    ∷ put (at 20) (some "seg1") (array_buffer (1 ∷ 2 ∷ 3 ∷ [])) no_meta
    ∷ alias (at 30) (some "seg1") (some "seg1b")
    ∷ get (at 40) (some "seg1b") none
    ∷ put (at 50) (some "seg2") (array_buffer (4 ∷ 5 ∷ [])) no_meta
    ∷ []

run_calls-Inv_example : Inv (run_calls session fresh)
run_calls-Inv_example = run_calls-Inv session fresh fresh-Inv

abbrev used : Cache
used = run_calls session fresh

evict_overflow-Trimmed_example :
    Trimmed (drop_expired 200_000 used.entries used) (evict_overflow 200_000 used)
evict_overflow-Trimmed_example =
    evict_overflow-Trimmed 200_000 used (run_calls-Inv session fresh fresh-Inv).books

get_hot_bytes-put_hot_bytes_example :
    (get_hot_bytes
      (at 9_000)
      (some "seg3")
      none
      (put_hot_bytes (at 60) (some "seg3") (array_buffer (7 ∷ 8 ∷ [])) no_meta fresh).1).0
    ≡ some (payload_of (new_entry (at 60) no_meta (7 ∷ 8 ∷ [])))
unfolding is_serving_enabled resolve_hot_key clone_bytes string_eq is_canonical_coalesce_key
    OrdMap.get
get_hot_bytes-put_hot_bytes_example =
    get_hot_bytes-put_hot_bytes (at 60) (at 9_000) (some "seg3") (array_buffer (7 ∷ 8 ∷ [])) no_meta
      "seg3" (7 ∷ 8 ∷ []) fresh fresh-Inv refl refl refl refl refl (omega arith) (omega arith) refl
      (omega arith)

asked_once : (v : ℕ) → stakes v fresh + asks_all v session ≤ 1
asked_once v = ground arith

stakes-run_calls_example : stakes 7 (run_calls session fresh) ≡ stakes 7 fresh + asks_all 7 session
stakes-run_calls_example = stakes-run_calls session fresh tt asked_once 7

run_calls-Crowded_example : Crowded (run_calls session fresh)
run_calls-Crowded_example =
    run_calls-Crowded session fresh (record { few_keys = omega arith; short = tt })
