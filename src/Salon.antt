-- ===== src/Salon.antt =====
-- Salon/UI.c: the window, which starts the other programs and shows what they print.
pub mod Glib
pub mod Buffer
pub mod Tables
pub mod Window
pub mod Monitors
pub mod Tests
