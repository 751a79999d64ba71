-- ===== src/Codec.antt =====
-- OrderedCode of src/observer/storage/common/codec.h and codec.cpp: encodings whose byte order is
-- the order of the values. A byte is a number below 256, a `string` a list of bytes.
pub mod Bytes
pub mod Unsigned
pub mod Text
mod Tests
