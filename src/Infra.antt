-- ===== src/Infra.antt =====
-- The threads that run the work.
pub mod ThreadSafeQueue
pub mod ThreadPool
pub mod KeyedSerialExecutor
