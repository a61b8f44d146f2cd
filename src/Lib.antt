-- ===== src/Lib.antt =====
-- AegisStream: the parts of the extension that hold bytes, and that decide what is fetched.
--
-- AegisStream is a browser extension. Its page scripts (src/page) watch the player's requests and
-- serve them from memory or from the worker; its service worker (src/background) prefetches
-- segments, keeps them in IndexedDB, and tells the pages what it has. The development models these
-- parts:
--
--   StoreQueue         src/background/cache/store-queue.js: the bounded queue of IndexedDB writes.
--                      `enqueue_unbounded`, `pump_wait_queue` and `finish` are the functions of
--                      those names; an `Event` is what the event loop does to the queue. `Keyed` is
--                      the chain of writes of each key in front of it (`enqueueStoreWrite`).
--   HotBytes           src/page/cache/hot-byte-cache.js: the bytes that a page keeps in memory.
--                      `Resolving` has its keys, `Store` its state and helpers, `Methods` its put,
--                      get, has and alias, `Waiters` its waiters and its clear; the other modules
--                      are proofs.
--   Coalescer          src/page/network/network-fetch-coalescer.js: one fetch in flight for a key,
--                      shared by its callers (`Fetches`); `Delivery` waits for what somebody else
--                      fetches.
--   Registry           src/page/cache/cache-registry.js: which keys a page believes to be cached,
--                      and when it asks the worker.
--   Index              src/background/cache/cache-registry.js: the worker's index of the keys in
--                      the database, and the payloads from which a page's registry is synced.
--   Journal            src/background/cache/eviction-journal.js: what was evicted or stored lately.
--   Eviction           src/background/cache: `Guards` is guard-ring.js, the segments near a playhead;
--                      `Pressure` is eviction-manager.js, when a pass is scheduled; `Plans` has
--                      the guards and the plan of the pass of db.js (`runEvictionPass`), and `Sweeps`
--                      its body: the sweep by age, the plan, the rows that it deletes.
--   Sequence           src/background/media/segment-sequence.js: `Pattern` reads and writes the counter
--                      in a URL, `Ladder` decides when a tab's segments make a playlist.
--   Prefetch           the prefetcher, src/background/prefetch:
--     Inflight         state/inflight-consumers.js: which players hold an in-flight prefetch.
--     Hysteresis       anchor/anchor-hysteresis.js: when the network's position moves the anchor.
--     Panic            policy/network-panic-policy.js: the wider window of a slow network.
--     Congestion       arbitration/congestion-controller.js: the radius and the caps.
--     Playback         state/playback-state-machine.js: what a new playlist snapshot means.
--     Generations      state/network-generation.js: which sources are harmless; `Bumps` has the
--                      generations of playback and the downloads that are registered under one.
--   Prelude            shared: Boolean tests, lists, JavaScript's `Map` (OrdMap) and `Set` (OrdSet)
--                      in insertion order, sorting, texts, and equality of keys.
--
-- How they interact: a fetch of Coalescer that ends puts its bytes into HotBytes; a put in HotBytes
-- notes its key in Registry; Index builds the payloads that Registry applies, and a replacing payload
-- clears HotBytes; the worker's stores pass through StoreQueue; a pass of Eviction takes the protected
-- URLs from Guards, is scheduled by Pressure, and its evictions are taken out of Index and written to
-- Journal; what Inflight counts as consumers, Guards protects. Congestion reads whether Panic is
-- active. A ladder of Sequence goes to the playlist of its tab. Where one part calls another, the call
-- is counted, or its answer is an argument.
--
-- How the code is modelled. State is a record, and a function that changes it returns the new state.
-- The clock, the settings and the functions that other scripts put into `ns` are fields of an
-- environment record, so that each call has its own; a function that is not there is `none`. An
-- object that the code mutates in a `Map` is replaced at its key. A promise is the number of its
-- task or waiter, and what it is resolved with stands in a list; callbacks that are due are counted.
--
-- Numbers. Counts, sizes and times are native natural numbers: JavaScript's doubles represent them
-- exactly up to 2^53, and no size or time here comes near it. Where the code subtracts, a comment or
-- the shape of the code says why stopping at 0 is the same (`Math.max(0, …)`, an age compared with a
-- positive limit). Milliseconds and seconds are whole, so that `Math.round` of a sample is the
-- sample. Confidences are tenths, and the ratios of Eviction hundredths.
--
-- Loops. `drop_oldest` in HotBytes has the number of entries as fuel, one of which goes in each round.
-- `wait_rounds` in Coalescer walks the rounds that the waiting loop sees, whose number the timeout
-- bounds. `print_number` in Prelude/Texts has one more than its number as fuel, and each digit divides
-- the number by ten. Every other loop is recursion on the list that the code walks.
--
-- Texts. Where the code looks into a text, the text is the list of its character codes; elsewhere it
-- is a string. `new URL` and the key of a fetch (`resolveNetworkCoalesceKey`) are not computed: their
-- results are arguments.
--
-- Not modelled: the making of the coalescer's keys, the statistics and log texts, the composite
-- session key of the playback state machine, the transactions of IndexedDB in
-- src/background/cache/db.js (of the eviction pass: its aliases, its index in memory and transactions
-- that fail), exceptions of `putHotBytes` in a coalesced fetch, the attach, release and notice around
-- the coalescer's wait, the order in which an eviction pass tries the segments, the browser's
-- interfaces (messages, tabs, fetches, and timers but for their effect), the parsing of manifests and
-- URLs, the interceptors, the page accelerator, the popup and the telemetry.
pub mod Prelude
pub mod Coalescer
pub mod Eviction
pub mod HotBytes
pub mod Index
pub mod Journal
pub mod Prefetch
pub mod Registry
pub mod Sequence
pub mod StoreQueue
