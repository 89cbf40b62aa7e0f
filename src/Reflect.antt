-- ===== src/Reflect.antt =====
-- c/reflect.c and the names of c/type.c: symbols built, looked up and demangled.
mod Names
mod Find
mod Demangled
mod SelfMethod
mod Create
mod Wide
mod WideParams
mod Runs
mod Table
mod Registered
mod TableRuns
