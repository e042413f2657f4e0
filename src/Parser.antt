-- ===== src/Parser.antt =====
-- src/parser: the PNG loader, which no other part of the program uses yet.
pub mod Stream
pub mod Endian
pub mod PngLoader
