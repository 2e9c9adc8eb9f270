-- ===== src/MemPool.antt =====
-- include/mem_pool.h: the pool of blocks behind the books, and the variant that
-- include/opt_mem_pool.h keeps beside it.
pub mod Pool
pub mod Laws
pub mod Opt
mod Tests
