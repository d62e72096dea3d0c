-- ===== src/WorkerPool.antt =====
-- examples/worker_pool.c: a program that makes jobs in one thread and checks them in others, with
-- memory from the allocator.
pub mod Job
pub mod JobQueue
pub mod State
pub mod Run
pub mod Waits
pub mod Arguments
pub mod Prepare
