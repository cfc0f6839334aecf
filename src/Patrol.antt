-- ===== src/Patrol.antt =====
-- Patrullas Fronterizas/Fronteras.c: the patrol of the USB devices and the files on them.
pub mod Files
pub mod Compare
pub mod Audit
pub mod Devices
pub mod Listing
pub mod Rounds
mod Tests
