-- ===== src/Python.antt =====
-- What the tool uses of Python's standard library: bytes and slices, `struct`, `zlib.crc32`,
-- `binascii`, text encodings and the reading of numbers.
pub mod Bytes
pub mod Struct
pub mod Slices
pub mod Crc
pub mod Hex
pub mod Utf8
pub mod Number
pub mod Base64
pub mod Path
