-- ===== src/Python.antt =====
-- What the program uses of Python's standard library: exceptions, floats, struct, zlib.crc32, str.
pub mod Result
pub mod Floats
pub mod Struct
pub mod Crc
pub mod Text
pub mod Decimal
pub mod Utf8
pub mod Sets
