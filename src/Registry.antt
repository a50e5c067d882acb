-- ===== src/Registry.antt =====
-- src/registry/ and the names of src/tools/yo_tools.cpp.
pub mod Names
pub mod Namespace
pub mod VariableList
pub mod Objects
pub mod Search
pub mod Tree
pub mod Calls
