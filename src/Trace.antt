-- ===== src/Trace.antt =====
-- c/stacktrace.c: looking for the program's file and for a line of the source, and the text of a
-- trace.
mod Path
mod Search
mod Message
mod Lines
mod Nearest
pub mod Frames
mod Resolve
mod Shown
mod Runs
