-- ===== src/Settings.antt =====
-- device.h and device.c: the settings of a device, read from a configuration and merged for display.
pub mod Defs
pub mod Init
pub mod Merge
pub mod Laws
