-- ===== src/Pool.antt =====
-- The thread pool of 4/thread_pool.c and 4/thread_pool.h.
pub mod Timeout
pub mod Task
pub mod Queue
pub mod Fifo
pub mod Worker
pub mod Api
pub mod Steps
pub mod Keeps
pub mod Owners
pub mod Threads
pub mod Pushes
pub mod Safety
pub mod Moves
pub mod Counted
pub mod Limits
pub mod Counts
pub mod Results
pub mod Defects
mod Tests
