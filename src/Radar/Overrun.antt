-- ===== src/Radar/Overrun.antt =====
-- src/modules/radar_online/RadarOverrun.cpp: the regions of a frame where the profile exceeds the limit,
-- how they are followed from frame to frame, and the table of the indices they get.
pub mod Table
pub mod Growth
pub mod Claims
pub mod Scan
pub mod Frame
pub mod Room
pub mod Matching
pub mod Adding
pub mod Lost
pub mod Leak
pub mod Single
pub mod Regions
