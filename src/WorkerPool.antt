-- ===== src/WorkerPool.antt =====
-- The worker pool, src/ml_worker_pool.c: its threads and their steps in Pool, who holds each message
-- in Held, what the steps keep in Moves and Safe, how far the threads have to go in Progress and
-- Stuck, and what that makes of every job in Once.
pub mod Pool
pub mod Held
pub mod Moves
pub mod Safe
pub mod Progress
pub mod Stuck
pub mod Once
mod Tests
