-- ===== src/Pools.antt =====
-- `include/Thread_pool`: the inline code of the two pool headers. What they only declare is not in
-- the repository.
pub mod Tasks
pub mod Tables
