-- ===== src/Types.antt =====
-- c/type.c: comparing type infos.
mod Equals
mod Ancestors
mod Runs
