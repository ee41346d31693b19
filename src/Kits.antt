-- ===== src/Kits.antt =====
-- The kits: the counters of a relay board, the pool of reusable objects, the timers of the thread pool,
-- and the cache of video frames.
pub mod Counters
pub mod ObjectPool
pub mod Timers
pub mod SaveVideo
