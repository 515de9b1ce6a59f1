-- ===== src/ScriptData/Written.antt =====
-- The bytes that `SItem::Serialise` of src/scriptdata/ScriptData.cpp writes.
pub mod Layout
pub mod Around
pub mod Stored
pub mod Filled
pub mod Vectors
pub mod Blocks
pub mod Linked
pub mod Addressed
pub mod Applied
pub mod File
