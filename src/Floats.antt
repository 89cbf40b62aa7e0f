-- ===== src/Floats.antt =====
-- c/print.c and c/conv.c: floating point numbers to text and back.
mod Code
mod Convert
mod RoundTrip
mod Runs
