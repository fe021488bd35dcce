-- ===== src/System.antt =====
-- The sensor, the regional server and the lamp together.
pub mod Motion
pub mod Sensing
pub mod Watch
pub mod Missed
pub mod Alarms
pub mod Registration
