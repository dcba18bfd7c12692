-- ===== src/Sort.antt =====
-- 1/mine: sorting files on coroutines.
pub mod Merge
pub mod Ordered
pub mod Results
pub mod Picks
pub mod Merged
pub mod Files
pub mod Plan
pub mod Coroutines
pub mod Shared
pub mod Schedules
pub mod Loop
pub mod Ring
pub mod Turns
pub mod Returned
pub mod RoundRobin
pub mod Running
pub mod Created
pub mod Shares
mod Tests
