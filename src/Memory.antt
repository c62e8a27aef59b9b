-- ===== src/Memory.antt =====
-- src/memory: the memory map and the identity map of the MMU.
pub mod Map
pub mod Mmu
pub mod Reserve
