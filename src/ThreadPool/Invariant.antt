-- ===== src/ThreadPool/Invariant.antt =====
-- What holds of a thread pool in every state that it can reach.
pub mod Defs
pub mod Moves
pub mod Steps
pub mod Claims
