-- ===== src/Startup.antt =====
-- c/run.c: the debug switch, the arguments, and the call of the program's `main`.
mod Code
mod Main
mod Runs
