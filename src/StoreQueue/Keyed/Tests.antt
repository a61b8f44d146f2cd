-- ===== src/StoreQueue/Keyed/Tests.antt =====
-- Runs of the chains of src/background/cache/store-queue.js on small inputs.
use aegis_stream.Prelude.Keys.{string_eq, nat_eq}
use aegis_stream.Prelude.OrdMap
use aegis_stream.Prelude.{◌<◌, refl, true, false, none, some, List, [], ◌∷◌, arith}
use aegis_stream.StoreQueue.{
  Config, high, low, enqueue_unbounded, accept, pump_wait_queue, start_waiting, place, finish,
  is_running, stop_running, resolve_concurrency, resolve_max_queue_depth,
}
use aegis_stream.StoreQueue.Keyed.{
  enqueue_store_write, KeyEnv, StoreTask, Keyed, no_writes, Event, write, follows, ends, step, run,
  write_key, chain_write, follow,
}
use aegis_stream.StoreQueue.Keyed.Chains.{endings}
use aegis_stream.StoreQueue.Keyed.Serial.{run-serial}

abbrev config : Config
config = record { store_write_concurrency = some 2; store_write_max_queue_depth = some 8 }

abbrev env : KeyEnv
env = record { strip_hash = none; before_hash = λ s. s }

abbrev task : StoreTask
task = record { is_function = true; store_key = none; url = some "seg" }

-- Two writes of one key: the second has its turn after the first has failed.
abbrev events : List Event
events =
    write env task none low
    ∷ write env task none high
    ∷ follows 1
    ∷ follows 0
    ∷ ends 0 false
    ∷ follows 1
    ∷ []

abbrev after_run : Keyed
after_run = run config no_writes events

run-serial_example : 0 < endings 0 after_run.queue
unfolding enqueue_store_write no_writes step write_key chain_write follow string_eq nat_eq
    OrdMap.get OrdMap.set enqueue_unbounded accept pump_wait_queue start_waiting place finish
    is_running stop_running resolve_concurrency resolve_max_queue_depth
run-serial_example =
    run-serial config events 0 1 "seg" (omega arith, (omega arith, tt)) refl refl (omega arith)
      (omega arith)
