-- ===== src/Uart.antt =====
-- src/uart.cpp and src/uart.h: the PL011 serial port.
pub mod CharBuffer
pub mod Driver
