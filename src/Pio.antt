-- ===== src/Pio.antt =====
-- The timed loops of lib/common_read_write_functions.h.
pub mod Meter
pub mod Loops
pub mod Counted
pub mod Written
pub mod Readback
pub mod Calls
pub mod Examples
pub mod Queues
pub mod Dma
pub mod DmaExample
