-- ===== src/Bridge.antt =====
-- bridge.c: a device whose members are other devices.
pub mod Types
pub mod Vlans
pub mod Members
pub mod Run
pub mod Quiet
pub mod Present
pub mod Enable
pub mod Events
pub mod State
pub mod Runs
