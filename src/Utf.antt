-- ===== src/Utf.antt =====
-- c/print.c: the conversion between code points and UTF-8, one character and whole arrays.
pub mod Code
pub mod RoundTrip
pub mod Arrays
pub mod Input
mod Streams
mod Runs
