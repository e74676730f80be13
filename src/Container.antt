-- ===== src/Container.antt =====
-- namespace container of include/basic/base.h.
pub mod HashMap
pub mod Vector
pub mod Map
pub mod Stream
