-- ===== src/Trace/Resolve.antt =====
-- c/stacktrace.c: the frame of the function `main` ends a trace.
use yruntime.Base.{
  ℕ, ◌+◌, ◌≡◌, refl, List, [], ◌∷◌, ◌++◌, Option, some, Bool, true, length, codes, bytes_eq,
  c_string, Option-cases, inl, inr, arith,
}
use yruntime.Mangle.Demangle.{demangle_symbol}
use yruntime.Mangle.Decimal.{str_from_int}
use yruntime.Mangle.RoundTrip.{path_of, mangled, demangle_symbol-mangled}
use yruntime.Trace.Path.{resolve_path, message_filename}
use yruntime.Trace.Lines.{DebugInfo, resolve_address}
use yruntime.Trace.Frames.{
  frames_loop, is_main, known_frame, stack_frame, resolve_stack_trace, trace_start, main_name,
}

-- Behind a frame that is the last one, nothing is looked at.
frames_loop-last {ℓ} :
    {A : Type ℓ} (frame : ℕ → A → Option (List ℕ × Bool)) (i : ℕ) (before : List A) (a : A)
    (after : List A) (ret : List ℕ)
    → ((k : ℕ) → (text : List ℕ) × (frame k a ≡ some (text, true)))
    → frames_loop frame i (before ++ a ∷ after) ret ≡ frames_loop frame i (before ++ a ∷ []) ret
unfolding frames_loop
frames_loop-last frame i [] a after ret h = let (text, e) = h i in rw e refl
frames_loop-last frame i (b ∷ before) a after ret h = elim (Option-cases (frame i b)) [
  | inl e ↦ rw e refl
  | inr ((text, need_break), e) ↦
      rw (e, frames_loop-last frame (i + 1) before a after (ret ++ text) h) refl
]

-- The symbol of the function whose path is `main`, with its types behind the `F`.
abbrev pub main_symbol : List ℕ → List ℕ
main_symbol rest = codes "_Y4mainF" ++ rest

is_main-main_symbol :
    (rest : List ℕ)
    → (demangle_symbol (main_symbol rest ++ 0 ∷ []) (length (main_symbol rest)) ≡ some main_name)
      × (is_main (main_symbol rest) main_name ≡ some true)
unfolding path_of mangled str_from_int is_main bytes_eq c_string
is_main-main_symbol rest = (
  demangle_symbol-mangled (codes "main") [] (rest ++ 0 ∷ []) (length (main_symbol rest))
      (refl, omega arith, omega arith) tt (omega arith) (omega arith),
  ground arith,
)

module _ (exists : List ℕ → Bool) (path behind : List ℕ) (debug_info : List ℕ → DebugInfo)
    (find_symbol_from_addr : ℕ → List ℕ → Option (List ℕ)) (backtrace_symbol : ℕ → List ℕ) where
  main_frame :
      (k addr : ℕ) (filename resolved rest : List ℕ)
      → message_filename (backtrace_symbol addr) 0 ≡ some filename
      → resolve_path exists filename path behind ≡ some (some resolved)
      → find_symbol_from_addr addr resolved ≡ some (main_symbol rest)
      → stack_frame exists path behind debug_info find_symbol_from_addr backtrace_symbol k addr
        ≡ some (known_frame k main_name (resolve_address (debug_info resolved) addr), true)
  unfolding stack_frame
  main_frame k addr filename resolved rest file path_found named =
      let shown = is_main-main_symbol rest in
      ground (arith, file, path_found, named, shown.0, shown.1)

  -- A frame whose file is found, and whose symbol is `_Y4mainF` with anything behind it, that of
  -- the function with the path `main`, is the last one of a trace: what the addresses behind it are
  -- makes no difference.
  pub resolve_stack_trace-main :
      (debug force_debug first second addr : ℕ) (before after filename resolved rest : List ℕ)
      → message_filename (backtrace_symbol addr) 0 ≡ some filename
      → resolve_path exists filename path behind ≡ some (some resolved)
      → find_symbol_from_addr addr resolved ≡ some (main_symbol rest)
      → resolve_stack_trace exists path behind debug_info find_symbol_from_addr backtrace_symbol
          debug force_debug
          (first ∷ second ∷ (before ++ addr ∷ after))
        ≡ resolve_stack_trace exists path behind debug_info find_symbol_from_addr backtrace_symbol
            debug force_debug
            (first ∷ second ∷ (before ++ addr ∷ []))
  unfolding resolve_stack_trace
  resolve_stack_trace-main debug force_debug first second addr before after filename resolved rest
        file path_found named =
      let frame =
        stack_frame exists path behind debug_info find_symbol_from_addr backtrace_symbol in
      let here = resolve_address (debug_info resolved) addr in
      let last : (k : ℕ) → (text : List ℕ) × (frame k addr ≡ some (text, true)) = λ k. (
        known_frame k main_name here,
        main_frame k addr filename resolved rest file path_found named,
      ) in
      rw (frames_loop-last frame 2 before addr after trace_start last) refl
