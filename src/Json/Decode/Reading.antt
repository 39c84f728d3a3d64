-- ===== src/Json/Decode/Reading.antt =====
-- Reading back what was written: the decoder of KFCJSONCodec.c on the texts of its encoder.
pub mod Numbers
pub mod Fractions
pub mod Scalars
pub mod Spaces
pub mod Trees
pub mod Marks
pub mod Turns
pub mod Elements
pub mod Whole
pub mod Encoded
pub mod Tests
