-- ===== src/Utils.antt =====
-- utils.c and utils.h: lists with versions, netmasks, and the check of a process's program.
pub mod Bits
pub mod Fls
pub mod Netmask
pub mod Addresses
pub mod Vlist
pub mod Reload
pub mod Pid
