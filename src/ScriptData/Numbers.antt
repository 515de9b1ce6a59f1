-- ===== src/ScriptData/Numbers.antt =====
-- The numbers that `Register` of src/scriptdata/ScriptData.cpp gives to the items of a value.
pub mod Numbering
pub mod Reach
pub mod Walks
pub mod Registered
