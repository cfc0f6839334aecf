-- ===== src/Earlier.antt =====
-- The earlier programs of the repository: Patrullas Fronterizas/Patrullas.c, which lists the USB
-- devices once, and Salon/prueba.c, a window with the table of processes alone.
pub mod Outline
pub mod Devices
pub mod Panel
mod Tests
