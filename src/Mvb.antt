-- ===== src/Mvb.antt =====
-- src/modules/mvb_service/mvbprocessmsg: the frames exchanged with the vehicle bus.
pub mod Fcs
pub mod Frame
pub mod Ningbo
pub mod Generator
pub mod Pms
pub mod Modbus
pub mod Hangde
pub mod Parse
pub mod ByteArray
