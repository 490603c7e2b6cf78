-- ===== src/System.antt =====
-- system-linux.c: the settings of a device, read from the kernel and written to it.
pub mod Text
pub mod Printed
pub mod Kernel
pub mod Setters
pub mod Getters
pub mod Apply
pub mod Get
pub mod Cells
pub mod Sole
pub mod Readback
pub mod Agree
pub mod Roundtrip
pub mod Applied
pub mod Unasked
