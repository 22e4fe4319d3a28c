-- ===== src/Net/Bytes.antt =====
-- common/net/include/net/byte_stream.h: the little-endian wire encoding.
-- A byte is a number below 256 and a std::string or std::vector<uint8_t> is a list of bytes.
pub mod Writer
pub mod Reader
pub mod Layout
pub mod Bounds
pub mod Values
pub mod Agree
pub mod Fields
pub mod Sizes
