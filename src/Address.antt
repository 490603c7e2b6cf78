-- ===== src/Address.antt =====
-- interface-ip.c: the addresses of an interface, and what the kernel is asked for.
pub mod Log
pub mod Update
pub mod Enabling
pub mod Removing
pub mod Routes
pub mod Entries
pub mod Switch
pub mod Switched
