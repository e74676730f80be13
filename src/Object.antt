-- ===== src/Object.antt =====
-- The object system: include/basic/object.h and src/basic/object.cpp.
pub mod Connections
pub mod Heap
pub mod Signals
pub mod Manager
pub mod Destroy
pub mod Returns
pub mod Linked
pub mod Creator
pub mod Emission
