-- ===== src/ThreadPool/Progress.antt =====
-- The progress of the tasks of a pool that runs.
pub mod Live
pub mod Drain
pub mod Owner
pub mod Sweep
pub mod Claims
