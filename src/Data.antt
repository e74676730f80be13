-- ===== src/Data.antt =====
-- Data objects and their JSON form: include/basic/data_manager_def.h and
-- src/basic/data_manager_impl.cpp.
pub mod Flags
pub mod Json
pub mod Reference
pub mod Convert
pub mod Store
pub mod TypedObject
pub mod Samples
pub mod Traits
pub mod TypeNames
pub mod Objects
pub mod Scalars
pub mod Forms
pub mod Create
