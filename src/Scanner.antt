-- ===== src/Scanner.antt =====
-- Defensores de las Murallas/Ports_Scanner.c: the TCP port scanner of the local host.
pub mod Ports
pub mod Split
pub mod Main
mod Tests
