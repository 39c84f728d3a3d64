-- ===== src/CString.antt =====
-- KFCString.c: whether memory holds a text, the hexadecimal value in a string, and the comparison of
-- strings that may be NULL.
pub mod Utf8
pub mod Hex
pub mod Order
mod Tests
