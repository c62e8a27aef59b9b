-- ===== src/Gic.antt =====
-- src/interrupts/: the interrupt controller's two drivers, and the choice of one of them.
pub mod Bus
pub mod Registers
pub mod V2
pub mod V3
pub mod Select
pub mod Device
pub mod Contract
