-- ===== src/Strings.antt =====
-- c/ystring.c: growing and appending strings.
pub mod Code
pub mod Concat
mod Runs
pub mod Build
pub mod Small
mod Chain
mod Memory
mod Shared
mod Sharing
mod SharedRuns
