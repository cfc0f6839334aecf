-- ===== src/Guard.antt =====
-- Guardia del tesoro real: the monitor of the running processes.
pub mod Monitor
pub mod Tracker
pub mod Process
pub mod System
pub mod Report
mod Tests
