-- ===== src/Wireless.antt =====
-- wireless.c: wireless devices, whose drivers are scripts, and the turns that scripts take.
pub mod Types
pub mod Handlers
pub mod Machine
pub mod Notify
pub mod Serial
pub mod Turns
pub mod Exclusion
pub mod Runs
pub mod Reach
