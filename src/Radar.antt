-- ===== src/Radar.antt =====
-- src/modules/radar_online: what the radar service does with the frames of its scanner.
pub mod Overrun
