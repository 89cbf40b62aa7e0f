-- ===== src/Except/Panic.antt =====
-- c/except.c: the ends of the process, with what they print. The trace is the outcome of
-- `_yrt_exc_resolve_stack_trace (_yrt_exc_get_stack_trace ())`.
use yruntime.Base.{
  ℕ, List, [], ◌∷◌, ◌++◌, Bool, Option, none, some, ◌==◌, if◌then◌else◌, length, codes, c_string,
}
use yruntime.Mangle.Decimal.{str_from_int}
use yruntime.Except.State.{Header}

-- `abort`, `exit`, or a crash in the resolution of the trace.
pub data End : Type 0 where
  aborted : End
  exited : ℕ → End
  crashed : End

-- What the process writes to `stderr`, and its end.
pub record Ended : Type 0 where
  pub stderr : List ℕ
  pub how : End

-- `(char*) trace.data` is printed as a C string; `behind` are the bytes behind its block.
abbrev pub trace_text : List ℕ → List ℕ → List ℕ
trace_text trace behind = if length trace == 0 then [] else c_string (trace ++ behind) ++ 10 ∷ []

unfoldable pub end_with_trace : Option (List ℕ) → List ℕ → List ℕ → End → Ended
end_with_trace none behind text how = record { stderr = text; how = crashed }
end_with_trace (some trace) behind text how = record {
  stderr = text ++ trace_text trace behind;
  how = how;
}

abbrev pub panic_text : List ℕ → List ℕ → ℕ → List ℕ
panic_text file function line =
    codes "Panic in file \""
    ++ (file
        ++ (codes "\", at line "
            ++ (str_from_int line
                ++ (codes ", in function \"" ++ (function ++ (codes "\" !!! " ++ 10 ∷ []))))))

abbrev pub terminate_text : List ℕ → ℕ → List ℕ
terminate_text msg line =
    codes "gcc.deh(" ++ (str_from_int line ++ (codes "): " ++ (msg ++ 10 ∷ [])))

abbrev pub panic_no_trace : Ended
panic_no_trace = record { stderr = codes "Panic during stacktrace !"; how = exited 255 }

module _ (trace : Option (List ℕ)) (behind : List ℕ) where
  -- `terminating` tells whether it was called before.
  unfoldable pub terminate : Bool → List ℕ → ℕ → Ended
  unfolding end_with_trace
  terminate terminating msg line =
      if terminating
      then (record { stderr = codes "terminating called recursively" ++ 10 ∷ []; how = aborted })
      else end_with_trace trace behind (terminate_text msg line) aborted

  unfoldable pub panic : List ℕ → List ℕ → ℕ → Ended
  unfolding end_with_trace
  panic file function line =
      end_with_trace trace behind (panic_text file function line) (exited 255)

  -- `text_at` are the C strings by their addresses.
  unfoldable pub panic_exception : (ℕ → List ℕ) → Header → Ended
  unfolding end_with_trace
  panic_exception text_at eh =
      end_with_trace trace behind (panic_text (text_at eh.file) (text_at eh.function) eh.line)
        (exited 255)
