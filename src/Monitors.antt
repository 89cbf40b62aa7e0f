-- ===== src/Monitors.antt =====
-- c/thread.c: the monitors of objects, and the threads that enter and leave them.
mod System
mod Invariant
mod Safety
mod Progress
mod Runs
