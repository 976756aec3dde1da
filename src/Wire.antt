-- ===== src/Wire.antt =====
-- Byte strings and how the program reads and writes them: the `bytes` crate as an interface, the
-- cursor over a slice, and the standard library's UTF-8 test.
pub mod Buf
pub mod Cursor
pub mod Text
pub mod Utf8
pub mod Endian
pub mod Crc32
pub mod BigEndian
