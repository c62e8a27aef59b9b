-- ===== src/Machine.antt =====
-- The kernel on one core: src/timer.cpp, src/cpu.cpp and src/uart.cpp where they read what the tree
-- said, src/exception.cpp, and src/kernel.cpp.
pub mod Core
pub mod Exception
pub mod Irq
pub mod Entry
mod Tests
