-- ===== src/Trace/Frames.antt =====
-- c/stacktrace.c: `_yrt_exc_get_stack_trace` and the text of `_yrt_exc_resolve_stack_trace` on
-- Linux. A concatenation of strings is one of their bytes.
use yruntime.Base.{
  ℕ, ◌+◌, ◌-◌, ◌^◌, List, [], ◌∷◌, ◌++◌, Option, none, some, Bool, false, not, ◌||◌, ltb, leb, ◌==◌,
  if◌then◌else◌, ◌>>=◌, ◌>>◌, guard, length, take, drop, codes, c_string, bytes_eq,
}
use yruntime.Mangle.Decimal.{str_from_int}
use yruntime.Mangle.Demangle.{demangle_symbol}
use yruntime.Trace.Path.{resolve_path, message_filename}
use yruntime.Trace.Lines.{DebugInfo, Location, resolve_address}

abbrev pub is_debug : ℕ → ℕ → Bool
is_debug debug force_debug = debug == 1 || force_debug == 1

-- `capture` stands for `backtrace`: the words of the buffer of that size, and the number that it
-- has set.
unfoldable pub get_stack_trace : (ℕ → List ℕ × ℕ) → ℕ → ℕ → ℕ → List ℕ
get_stack_trace capture max_trace debug force_debug =
    let (trace, trace_size) = capture max_trace in
    if is_debug debug force_debug then take trace_size trace else []

-- "\n╞═ bt ╕ #" and "\n╞═ bt ═ #", in UTF-8.
abbrev pub frame_down : List ℕ
frame_down =
    10 ∷ 0xe2 ∷ 0x95 ∷ 0x9e ∷ 0xe2 ∷ 0x95 ∷ 0x90 ∷ (codes " bt " ++ 0xe2 ∷ 0x95 ∷ 0x95 ∷ codes " #")

abbrev pub frame_flat : List ℕ
frame_flat =
    10 ∷ 0xe2 ∷ 0x95 ∷ 0x9e ∷ 0xe2 ∷ 0x95 ∷ 0x90 ∷ (codes " bt " ++ 0xe2 ∷ 0x95 ∷ 0x90 ∷ codes " #")

-- "\n│     ╘═> \e[32m", "\e[33m" and "\e[0m".
abbrev pub file_arrow : List ℕ
file_arrow =
    10
    ∷ 0xe2
    ∷ 0x94
    ∷ 0x82
    ∷ (codes "     " ++ 0xe2 ∷ 0x95 ∷ 0x98 ∷ 0xe2 ∷ 0x95 ∷ 0x90 ∷ (codes "> " ++ 27 ∷ codes "[32m"))

abbrev pub yellow : List ℕ
yellow = 27 ∷ codes "[33m"

abbrev pub plain : List ℕ
plain = 27 ∷ codes "[0m"

-- "╭  Stack trace :" and "\n╰".
abbrev pub trace_start : List ℕ
trace_start = 0xe2 ∷ 0x95 ∷ 0xad ∷ codes "  Stack trace :"

abbrev pub trace_end : List ℕ
trace_end = 10 ∷ 0xe2 ∷ 0x95 ∷ 0xb0 ∷ []

abbrev pub main_name : List ℕ
main_name = codes "main (...)"

-- `str_from_int` of an `int`, by its bits.
abbrev pub int_text : ℕ → List ℕ
int_text n = if ltb n (2 ^ 31) then str_from_int n else b'-' ∷ str_from_int (2 ^ 32 - n)

abbrev pub file_text : Location → List ℕ
file_text here = elim here.file [
  | none ↦ []
  | some file ↦ file_arrow ++ (c_string file ++ (plain ++ (b':' ∷ int_text here.line)))
]

abbrev pub frame_start : Location → List ℕ
frame_start here = elim here.file [ none ↦ frame_flat | some file ↦ frame_down ]

unfoldable pub known_frame : ℕ → List ℕ → Location → List ℕ
known_frame i name here =
    frame_start here
    ++ (str_from_int (i - 1)
        ++ (codes " in function " ++ (yellow ++ (name ++ (plain ++ file_text here)))))

unfoldable pub unknown_frame : ℕ → List ℕ → List ℕ
unknown_frame i filename =
    frame_down ++ (str_from_int (i - 1) ++ (codes " in ??" ++ (file_arrow ++ (filename ++ plain))))

-- `strcmp (name.data, "main (...)") == 0`. A demangled name without bytes is the empty string,
-- whose data is NULL; a symbol of at most two bytes is its own name.
unfoldable pub is_main : List ℕ → List ℕ → Option Bool
is_main symbol name = do
  guard (leb (length symbol) 2 || not (length name == 0))
  some (bytes_eq (c_string name) main_name)

-- The loop over the frames, from the `i`th on. A round gives the text that it adds and whether it
-- is the last; `none` is a crash.
unfoldable pub frames_loop {ℓ} :
    {A : Type ℓ} → (ℕ → A → Option (List ℕ × Bool)) → ℕ → List A → List ℕ → Option (List ℕ)
frames_loop frame i [] ret = some ret
frames_loop frame i (a ∷ rest) ret = do
  (text, need_break) ← frame i a
  let more = frames_loop frame (i + 1) rest (ret ++ text)
  if need_break then some (ret ++ text) else more

-- `access`, what memory holds behind the copy of the variable `PATH`, the debug information of a
-- file, the lookup in the symbol tables of core/reflect.yr, and `backtrace_symbols`.
module _ (exists : List ℕ → Bool) (path behind : List ℕ) (debug_info : List ℕ → DebugInfo)
    (find_symbol_from_addr : ℕ → List ℕ → Option (List ℕ)) (backtrace_symbol : ℕ → List ℕ) where
  -- The file and the name of the symbol, where both are found.
  abbrev pub find_symbol : ℕ → Option (List ℕ) → Option (List ℕ × List ℕ)
  find_symbol addr succ = do
    resolved ← succ
    name ← find_symbol_from_addr addr resolved
    some (resolved, name)

  unfoldable pub stack_frame : ℕ → ℕ → Option (List ℕ × Bool)
  stack_frame i addr = do
    filename ← message_filename (backtrace_symbol addr) 0
    succ ← resolve_path exists filename path behind
    elim (find_symbol addr succ) [
      | none ↦ some (unknown_frame i filename, false)
      | some (resolved, symbol) ↦ (do
        name ← demangle_symbol (symbol ++ 0 ∷ []) (length symbol)
        need_break ← is_main symbol name
        some (known_frame i name (resolve_address (debug_info resolved) addr), need_break))
    ]

  unfoldable pub resolve_stack_trace : ℕ → ℕ → List ℕ → Option (List ℕ)
  resolve_stack_trace debug force_debug syms =
      if is_debug debug force_debug
      then (do ret ← frames_loop stack_frame 2 (drop 2 syms) trace_start; some (ret ++ trace_end))
      else some []
