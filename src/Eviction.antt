-- ===== src/Eviction.antt =====
-- The eviction of cached segments: src/background/cache/guard-ring.js and
-- src/background/cache/eviction-manager.js, and the pass over the database in
-- src/background/cache/db.js.
pub mod Guards
pub mod Pressure
pub mod Plans
pub mod Sweeps
mod Windows
pub mod Aging
mod Batches
pub mod Safety
pub mod Outcomes
pub mod Passes
mod Tests
