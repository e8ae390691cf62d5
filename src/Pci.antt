-- ===== src/Pci.antt =====
-- bus/pci: the enumeration of a PCI bus through its memory-mapped configuration space.
pub mod Platform
pub mod Config
pub mod Scan
pub mod Space
pub mod Addressing
pub mod Access
pub mod Bars
pub mod Routing
mod Tests
