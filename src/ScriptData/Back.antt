-- ===== src/ScriptData/Back.antt =====
-- A file that src/scriptdata/ScriptData.cpp has written, read back by it.
pub mod Located
pub mod Words
pub mod Placed
pub mod Elements
pub mod References
pub mod Tables
pub mod Header
pub mod Recognised
pub mod RoundTrip
pub mod Detected
