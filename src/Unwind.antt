-- ===== src/Unwind.antt =====
-- c/personality.c: the personality routine that the unwinder calls for each frame, with the
-- readers of the exception tables below it.
pub mod Memory
pub mod Leb
pub mod Encoded
pub mod Action
pub mod Scan
pub mod Personality
pub mod Sample
mod Written
mod Handlers
mod Runs
