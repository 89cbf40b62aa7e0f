-- ===== src/Copies.antt =====
-- c/ymemory.c: the map from copied objects to their copies, and the blocks of elements.
mod Map
mod Refines
mod History
mod Runs
