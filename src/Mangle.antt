-- ===== src/Mangle.antt =====
-- c/demangle.c: mangling of module paths and demangling of symbols, over the contents of the
-- strings that the functions build, where `str_concat` is `++`, and with the strings themselves.
pub mod Decimal
pub mod Demangle
pub mod Built
mod Builds
mod PathBuilds
pub mod Paths
pub mod RoundTrip
mod Fuel
mod Runs
