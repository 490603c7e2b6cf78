-- ===== src/Device.antt =====
-- device.h and device.c: devices, their users, and the events that the users are told of.
pub mod Store
pub mod Claim
pub mod Present
pub mod Users
pub mod Listed
pub mod Config
pub mod Counting
pub mod Laws
pub mod Refcount
pub mod Membership
pub mod Reconfigure
pub mod Runs
pub mod Frame
