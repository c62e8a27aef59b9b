-- ===== src/DeviceTree.antt =====
-- src/DeviceTree.cpp and src/DeviceTree.h: the flattened device tree.
pub mod Blob
pub mod Header
pub mod Parser
pub mod Frame
pub mod Interrupts
pub mod Dispatch
pub mod Phandle
pub mod Full
pub mod Reg
