-- ===== src/Witnesses.antt =====
-- The theorems on concrete frames, generators and calls.
pub mod MvbFrames
pub mod MvbCalls
pub mod HangdeFrames
pub mod TagFrames
pub mod Pool
pub mod Timers
pub mod Tasks
pub mod Locations
pub mod Queries
pub mod Videos
pub mod Radar
pub mod Counters
