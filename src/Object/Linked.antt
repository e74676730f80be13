-- ===== src/Object/Linked.antt =====
-- How objects that observe one another are tied together.
pub mod Defs
pub mod Sweep
pub mod Same
pub mod Leaving
pub mod Leaf
pub mod Delete
pub mod Added
pub mod Connect
pub mod Disconnect
pub mod Child
pub mod Children
pub mod Owner
pub mod Dangling
pub mod Create
pub mod Childless
mod Tests
pub mod Tree
