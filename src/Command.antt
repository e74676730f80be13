-- ===== src/Command.antt =====
-- Commands: include/basic/cmd_manager_def.h and src/basic/cmd_manager_impl.cpp.
pub mod Result
pub mod Pipeline
pub mod Register
pub mod Data
pub mod Procedure
