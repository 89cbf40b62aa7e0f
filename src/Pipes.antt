-- ===== src/Pipes.antt =====
-- c/thread.c: pointers written to a pipe and read from it.
mod Code
mod Fifo
mod Runs
