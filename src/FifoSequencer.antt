-- ===== src/FifoSequencer.antt =====
-- Exchange/order_server/fifo_sequencer.h: the requests of one poll cycle, by time of arrival.
pub mod Sequencer
pub mod Ordered
pub mod Cycle
mod Tests
