-- ===== src/Prefix.antt =====
-- interface-ip.c: the subnets of a delegated IPv6 prefix are handed out to the interfaces.
pub mod Slots
pub mod Rounding
pub mod Packing
pub mod Search
pub mod Assign
pub mod Placing
pub mod Rounds
pub mod Order
