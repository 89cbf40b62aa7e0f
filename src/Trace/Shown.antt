-- ===== src/Trace/Shown.antt =====
-- c/stacktrace.c: the text of a trace, by what is known of the addresses.
use yruntime.Base.{
  ℕ, ◌+◌, ◌<◌, ◌≡◌, ◌≢◌, List, [], ◌∷◌, ◌++◌, Option, none, some, Bool, length, codes, c_string,
}
use yruntime.Mangle.Decimal.{str_from_int}
use yruntime.Mangle.Demangle.{demangle_symbol}
use yruntime.Trace.Path.{resolve_path, message_filename}
use yruntime.Trace.Lines.{DebugInfo, Location, resolve_address}
use yruntime.Trace.Frames.{
  stack_frame, frame_down, frame_start, file_arrow, file_text, yellow, plain,
}

-- What a line of a trace shows: the name of a function and the place of its source, or the file of
-- an address whose symbol is not found.
pub data Shown : Type 0 where
  known : List ℕ → Location → Shown
  unknown : List ℕ → Shown

-- The lines, with their numbers.
abbrev pub trace_line : ℕ → Shown → List ℕ
trace_line n (known name here) =
    frame_start here
    ++ (str_from_int n
        ++ (codes " in function " ++ (yellow ++ (name ++ (plain ++ file_text here)))))
trace_line n (unknown filename) =
    frame_down ++ (str_from_int n ++ (codes " in ??" ++ (file_arrow ++ (filename ++ plain))))

unfoldable pub trace_lines : ℕ → List Shown → List ℕ
trace_lines n [] = []
trace_lines n (shown ∷ rest) = trace_line n shown ++ trace_lines (n + 1) rest

-- A line of another function than `main (...)`.
abbrev pub IsOther : Shown → Type 0
IsOther (known name here) = c_string name ≢ codes "main (...)"
IsOther (unknown filename) = Unit

module _ (exists : List ℕ → Bool) (path behind : List ℕ) (debug_info : List ℕ → DebugInfo)
    (find_symbol_from_addr : ℕ → List ℕ → Option (List ℕ)) (backtrace_symbol : ℕ → List ℕ) where
  -- What the lookups find for an address: the file in its message, and the symbol in the file,
  -- whose name is not empty; or no file of that name, or no symbol.
  pub data Finds (addr : ℕ) : Shown → Type 0 where
    symbol_found :
        {filename resolved symbol name : List ℕ}
        → message_filename (backtrace_symbol addr) 0 ≡ some filename
        → resolve_path exists filename path behind ≡ some (some resolved)
        → find_symbol_from_addr addr resolved ≡ some symbol
        → demangle_symbol (symbol ++ 0 ∷ []) (length symbol) ≡ some name
        → 0 < length name
        → Finds addr (known name (resolve_address (debug_info resolved) addr))
    no_file :
        {filename : List ℕ}
        → message_filename (backtrace_symbol addr) 0 ≡ some filename
        → resolve_path exists filename path behind ≡ some none
        → Finds addr (unknown filename)
    no_symbol :
        {filename resolved : List ℕ}
        → message_filename (backtrace_symbol addr) 0 ≡ some filename
        → resolve_path exists filename path behind ≡ some (some resolved)
        → find_symbol_from_addr addr resolved ≡ none
        → Finds addr (unknown filename)

  frame : ℕ → ℕ → Option (List ℕ × Bool)
  frame = stack_frame exists path behind debug_info find_symbol_from_addr backtrace_symbol
