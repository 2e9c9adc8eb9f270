-- ===== src/LfQueue.antt =====
-- include/lq_free.h: the single-producer single-consumer queue between the threads.
pub mod Ring
pub mod Fifo
pub mod Steps
mod Tests
