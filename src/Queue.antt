-- ===== src/Queue.antt =====
-- The bounded message queue of src/ml_queue.c: the ring buffer of the code in Ring, the list that it
-- stands for in Fifo, the refinement between them, and schedules of several threads.
pub mod Ring
pub mod Fifo
pub mod Refine
pub mod Room
pub mod Schedule
mod Tests
