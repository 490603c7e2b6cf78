-- ===== src/Interface.antt =====
-- interface.c: interfaces, bound to devices and driven by protocol handlers.
pub mod Types
pub mod State
pub mod Binding
pub mod Events
pub mod Leaves
pub mod Kept
pub mod Bound
pub mod Followed
pub mod Runs
