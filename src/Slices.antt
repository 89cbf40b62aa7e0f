-- ===== src/Slices.antt =====
-- c/ymemory.c: slices that are copied, filled and joined.
pub mod Code
mod Contents
mod Runs
mod Env
