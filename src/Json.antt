-- ===== src/Json.antt =====
-- The JSON codec, KFCJSONCodec.c.
pub mod Codes
pub mod Escape
pub mod Number
pub mod Encode
pub mod Decode
pub mod Events
pub mod Insertion
mod Tests
