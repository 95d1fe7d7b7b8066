-- ===== src/Concurrency.antt =====
-- src/concurrency: the pool of worker threads.
pub mod ThreadPool
