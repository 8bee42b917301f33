-- ===== src/Runtime.antt =====
-- src/include/runtime: the memory pool and the lock-free queue.
pub mod MemoryPool
pub mod LockFreeQueue
