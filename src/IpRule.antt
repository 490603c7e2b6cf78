-- ===== src/IpRule.antt =====
-- iprule.c: policy rules, some of which follow the devices of interfaces.
pub mod Types
pub mod Track
pub mod Installed
pub mod Registered
pub mod Runs
pub mod Parse
pub mod Read
pub mod Compare
