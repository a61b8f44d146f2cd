-- ===== src/Prefetch.antt =====
-- The prefetcher of the service worker, src/background/prefetch.
pub mod Inflight
pub mod Hysteresis
pub mod Panic
pub mod Playback
pub mod Congestion
pub mod Generations
mod Tests
