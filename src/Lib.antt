-- ===== src/Lib.antt =====
-- floss, a small kernel for 64-bit Arm: its parts that decide something, and what they promise.
--
-- Parts, and the files that model them:
--   LibC          src/libcstubs.cpp: string and memory functions, on lists of the readable bytes
--   Align         src/util/align.h: rounding by masks
--   Print         src/kstdio.cpp: numbers and formats, over the UART's two senders
--   DeviceTree    src/DeviceTree.cpp, src/DeviceTree.h. Blob has the memory and the big-endian
--                 loads, Header the header's fields, Parser the class Parser (next is next, with
--                 one function per case of its switch), Frame the node frames, Phandle the first
--                 pass and the table that it fills (Phandle/Clocks the chain of parent clocks), Full
--                 the second pass, Dispatch the table of handlers, Reg and Interrupts what the
--                 handlers read
--   Nodes         the functions dt_parse that the second pass calls: src/uart.cpp, src/timer.cpp,
--                 src/memory/map.cpp, src/interrupts/gic.cpp; Nodes/Cores: src/cpu.cpp and
--                 src/boot/psci.cpp
--   Memory/Map    src/memory/map.cpp: the lists of RAM, device and reserved regions;
--                 Memory/Reserve its function init
--   Memory/Mmu    src/memory/mmu.cpp: page tables and the identity map. Walk is the walk of the
--                 hardware, Plan what each part of the address space is to be mapped as
--   Uart          src/uart.cpp: CharBuffer is the ring, Driver the operations on the device
--   Gic           src/interrupts: V2 and V3 are the two drivers, over a Bus that stands for the device
--                 and the system registers; Select is the interface of the drivers and gic.cpp;
--                 Registers has what the device's registers are documented to do, Device an example
--                 of such a device, and Contract what the kernel relies on of either driver
--   Machine       Core: src/timer.cpp, src/cpu.cpp and the rest of src/kstdio.cpp; Exception and Irq:
--                 src/exception.cpp and the interrupt entry of src/exceptions.S; Entry: src/kernel.cpp
--   SpinLock      src/locking/SpinLock.cpp: its instructions as a step relation
--   Base          shared: arrays, bits, words, Boolean tests, and outcomes
--
-- How they interact: the parser walks the blob; the passes keep a frame for each open node and
-- hand a node that ends to the handlers of Nodes, which fill the state of the UART, the timer, the
-- cores and the memory map; the MMU maps what the memory map holds. The entry starts the parts in
-- order, selects the driver of the interrupt controller and has it set up two interrupts; the
-- interrupt handler then serves the timer and the UART. The static variables of a
-- file are a record that its functions take and return.
--
-- A run has an Outcome: done with its result; panic, where report_error stops the kernel (a failed
-- kassert, kprecond or kpostcond, or kpanic); fault, for an access outside the objects that the
-- code may touch, or other undefined behaviour; stuck, where fuel ran out. Words are natural
-- numbers with the wrap-around written out. A pointer into the blob is its address.
--
-- Fuel: next gets the bytes that are left of the structure block, of which each round takes four.
-- Both passes get one round for each byte of that block and one more. compatible_list_contains
-- takes a byte at least in a round. The printing of a number gets 21 rounds, since its buffer
-- is full after 20 digits. lookup_clock_frequency gets as many rounds as there are mappings,
-- and one more: on a cycle of clocks, on which the code does not end, it is stuck. The device's
-- flags are a list that the driver reads from, and a run that reads more than it holds is stuck.
-- The loops of the GICv3 driver take fuel for the redistributors and for the reads of one busy wait.
--
-- Taken as parameters: the interrupt controller's device and the system registers (Bus), the
-- addresses of the linker script, and what the UART shows to its driver's reads.
--
-- Not modelled: the vector table and the saving of registers (src/exceptions.S), src/start.S, the
-- barriers, and the messages that the MMU set-up and a refused boot of a core print. The banked
-- registers of a GICv2 are seen from one core, and the registers of either controller are taken to
-- reach to 1024 interrupts. The spin lock's memory is sequentially consistent. The second pass over
-- the tree is a definition only: that it ends rests on the handlers, of which not all do on every tree.
pub mod Base
pub mod LibC
pub mod Align
pub mod Print
pub mod DeviceTree
pub mod Memory
pub mod Uart
pub mod Nodes
pub mod Gic
pub mod Machine
pub mod SpinLock
