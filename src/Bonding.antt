-- ===== src/Bonding.antt =====
-- bonding.c: bonding devices and their ports.
pub mod Types
pub mod Ports
pub mod Run
pub mod Counted
pub mod Keeps
pub mod State
pub mod Runs
