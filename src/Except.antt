-- ===== src/Except.antt =====
-- c/except.c: the exception stacks of the threads, throwing and catching.
pub mod State
mod Operations
mod Threads
mod Steps
mod RoundTrip
mod Nested
mod Stacks
mod Chain
mod Thrown
mod Caught
mod Removed
mod Unwinding
mod Saved
mod Whole
mod History
mod Delivery
mod Runs
mod Interleaved
mod Concurrent
mod InterleavedRuns
mod Panic
mod Ends
