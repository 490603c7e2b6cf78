-- ===== src/Examples.antt =====
-- Concrete inputs: runs of the modelled code, and instances of the theorems.
pub mod Stores
pub mod Devices
pub mod Interfaces
pub mod Scripts
pub mod Prefixes
pub mod Attributes
pub mod Hotplugs
pub mod Radios
pub mod Texts
pub mod Bonds
pub mod Bridges
pub mod Subnets
pub mod Kernels
pub mod Rules
