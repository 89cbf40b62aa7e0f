-- ===== src/Lib.antt =====
-- The C runtime of the Ymir language, the files under c/.
--
-- A program that the compiler makes calls the runtime for its exceptions, its strings, the deep
-- copies of its objects, and its reflection. The parts and the files that model them:
--
-- - Except: c/except.c and c/except.h. The state is the chain of the threads' exception stacks and
--   the exception headers by their addresses (State); each `_yrt_exc_*` function is a step on it
--   under its name without the prefix (Operations). `_yrt_exc_throw` is modelled up to its call of
--   `_Unwind_RaiseException`, and `_yrt_exc_begin_catch` with the cleanup that
--   `_Unwind_DeleteException` calls. The addresses that `calloc` returns are arguments. Threads,
--   Steps, Chain, Thrown, Caught, Removed and Whole hold the lemmas. History is about any sequence
--   of throws, calls of the personality routine (Unwinding) and catches in several threads; Stacks
--   gives the abstract view of a state, the list of the exceptions of each thread. Interleaved has
--   the sections under `_yrt_exc_mutex` as the steps of any number of threads, and Panic what the
--   process prints where it ends.
-- - Unwind: c/personality.c. The unwinder calls the personality routine for each frame of a thrown
--   exception. Memory is a byte memory with the outcomes of a read; Leb and Encoded read numbers
--   of the exception tables, Action walks the action table, Scan is `_yrt_exc_scan_lsda`, and
--   Personality is `_yrt_exc_personality` and `__gyc_personality_v0`. What the unwinder tells of a
--   frame is the record Frame, and what it is told to install is a part of the answer. The phases
--   hand the fields Saved on in the exception header. Written has a table as a compiler writes it,
--   byte by byte, and Handlers the two phases over it.
-- - Monitors: c/thread.c, `_yrt_ensure_monitor`, `_yrt_atomic_monitor_enter` and
--   `_yrt_atomic_monitor_exit`. System has the steps of any number of threads, each one an access
--   to the shared memory, and Reach the states that they come to in any order.
-- - Trace: c/stacktrace.c for Linux. Path is `_yrt_resolve_path`, Lines `_yrt_resolve_address` with
--   what libdwarf answers as the record DebugInfo, and Frames `_yrt_exc_resolve_stack_trace` and
--   `_yrt_exc_get_stack_trace`; Shown has the lines of a trace by what is known of its addresses.
--   It takes names apart with Mangle.
-- - Startup: c/run.c. It sets up Except and hands the arguments on as slices.
-- - Utf: c/print.c, the conversions between code points and UTF-8, and characters that are printed
--   and read; the other files of the runtime pass names through the conversions.
-- - Mangle: c/demangle.c, and `str_from_int` of c/ystring.c. Stack traces demangle with it, and
--   reflection mangles. Demangle and Paths are over the contents of strings, and Built has the
--   calls of Strings that build these.
-- - Reflect: c/reflect.c, the names of symbols of c/type.c, and `_yrt_alloc_class` of c/ymemory.c
--   (Create). The lookup in the indexed table is core/reflect.yr's, and a parameter, `find_symbol`.
--   Table has the table that modules register their symbols in on Windows, and when it is indexed.
-- - Types: c/type.c, `_yrt_type_equals` on finite trees of type infos.
-- - Strings: c/ystring.c, over the bytes of the blocks that the strings use; Build has what is
--   made from C strings and printed texts, Small the strings that need no more than their first
--   block, Memory and Shared have strings that share blocks.
-- - Copies: the deep-copy map of c/ymemory.c, with `_yrt_dcopy_head` as its state.
-- - Slices: c/ymemory.c and c/yarray.h, the slices that are copied, filled and joined, and
--   the current directory of c/env.c (Env).
-- - Floats: c/print.c and c/conv.c, floating point numbers as text; the numbers themselves,
--   `printf`, `strtof` and `strtod` are parameters.
-- - Pipes: c/thread.c, pointers through a pipe, with the pipe of the system as a parameter.
-- - Base: what these share.
--
-- Numbers are natural numbers; a machine word is written with its `% 2 ^ 64` where it can wrap.
-- Pointers are addresses, and 0 is NULL. `GC_malloc` is a parameter of Strings, Slices and
-- Copies, with the size of the block that it returns as the hypothesis where one is needed. A
-- write or a read out of bounds has no result, `none` or `fault`, and neither has an `int` that
-- overflows as an index of c/demangle.c or of the array conversions of c/print.c.
--
-- Fuel: the loops of Leb run ten rounds, since the eleventh would shift by 70 bits, which is a
-- fault. The call-site loop of Scan runs on the size of the table and one, and each round takes a
-- byte at least. The loop of `_yrt_resolve_path` runs on the length of the path and one, and each
-- round takes a byte at least. The walk through the action table is on a fuel that the caller
-- gives, as a table may be cyclic. The loop of `_yrt_demangle_symbol` runs on the length of the
-- text and one, and each round takes a digit at least (Mangle/Fuel).
--
-- Not modelled: files, the casts and the functions of floating point, the other functions of
-- pthread and the collector (c/errno.c, c/files.c, c/gc.c, c/math.c, the rest of c/conv.c and of
-- c/thread.c), which are operations of C or calls of other libraries; what the handler of a
-- segmentation fault throws; the other parts for Windows, of which those of c/stacktrace.c do not
-- fit c/reflect.h; the mutexes outside of Monitors, which serialise the operations (the sections
-- under `_yrt_exc_mutex` are steps of their own in Except/Interleaved); and the libraries in Ymir
-- under core/ and std/.
pub mod Base
pub mod Copies
pub mod Except
pub mod Floats
pub mod Mangle
pub mod Monitors
pub mod Pipes
pub mod Reflect
pub mod Slices
pub mod Startup
pub mod Strings
pub mod Trace
pub mod Types
pub mod Unwind
pub mod Utf
