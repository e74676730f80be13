-- ===== src/Object/Linked/Tree.antt =====
-- Managers that own managers: the end of a whole tree of objects, among linked objects.
pub mod Defs
pub mod Later
pub mod Round
pub mod Claims
