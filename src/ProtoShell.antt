-- ===== src/ProtoShell.antt =====
-- proto-shell.c: protocol handlers that are shell scripts, run as processes of their own.
pub mod State
pub mod Machine
pub mod Notify
pub mod Invariant
pub mod Liveness
pub mod Requests
pub mod Runs
pub mod Killed
