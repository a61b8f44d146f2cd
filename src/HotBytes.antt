-- ===== src/HotBytes.antt =====
-- src/page/cache/hot-byte-cache.js: the page's in-memory cache of segment bytes.
pub mod Resolving
pub mod Store
pub mod Methods
pub mod Waiters
pub mod Overflow
pub mod Kept
pub mod Bounds
pub mod Runs
pub mod Roundtrip
pub mod Served
pub mod Quiet
pub mod Stakes
pub mod Answers
pub mod Awaited
pub mod Crowds
pub mod Crowded
mod Tests
