-- ===== src/Provoke.antt =====
-- The small programs that provoke alerts of the patrol by hand.
pub mod Posix
pub mod Status
pub mod Descriptors
pub mod Stdio
pub mod Copy
pub mod Attributes
pub mod Growth
pub mod Expansion
pub mod Replication
pub mod Renaming
pub mod Creation
mod Tests
