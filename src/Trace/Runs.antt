-- ===== src/Trace/Runs.antt =====
-- c/stacktrace.c: a program `prog` that is found in the directory `/bin`, and a trace with one
-- frame in front of that of `main`.
use yruntime.Base.{
  ℕ, ◌≡◌, refl, List, [], ◌∷◌, map, Option, none, some, Bool, true, ◌==◌, if◌then◌else◌, codes,
  bytes_eq, arith,
}
use yruntime.Trace.Path.{end_token, strtok, path_loop, resolve_path, message_filename}
use yruntime.Trace.Search.{path_text, resolve_path-first}
use yruntime.Trace.Lines.{DebugInfo, Location, find_dwarf_die, resolve_address}
use yruntime.Trace.Nearest.{Row, row_line, Nearest, resolve_address-Nearest}
use yruntime.Trace.Frames.{resolve_stack_trace}
use yruntime.Trace.Resolve.{main_symbol, resolve_stack_trace-main}
use yruntime.Trace.Shown.{Shown, unknown}

abbrev prog : List ℕ
prog = codes "prog"

abbrev bin_prog : List ℕ
bin_prog = codes "/bin/prog"

abbrev exists_prog : List ℕ → Bool
exists_prog = bytes_eq bin_prog

abbrev dirs : List (List ℕ)
dirs = codes "/usr" ∷ codes "/bin" ∷ []

resolve_path-first_example :
    resolve_path exists_prog prog (path_text dirs) (0 ∷ []) ≡ some (some bin_prog)
unfolding bytes_eq
resolve_path-first_example = resolve_path-first exists_prog prog dirs [] refl (omega arith)

abbrev rows : List Row
rows =
    record { address = 4096; source = codes "a.yr"; number = 3 }
    ∷ record { address = 4112; source = codes "a.yr"; number = 5 }
    ∷ record { address = 4200; source = codes "b.yr"; number = 9 }
    ∷ []

abbrev debug_info : DebugInfo
debug_info = record {
  descriptor = 3;
  init = true;
  aranges = true;
  arange = λ addr. some 11;
  offdie = λ offset. true;
  srclines = λ die. some (map row_line rows);
}

resolve_address-Nearest_example : Nearest 4120 rows (resolve_address debug_info 4120)
unfolding find_dwarf_die
resolve_address-Nearest_example =
    resolve_address-Nearest debug_info 4120 11 rows (omega arith) refl refl refl (omega arith)
      (omega arith)

abbrev find_main : ℕ → List ℕ → Option (List ℕ)
find_main addr file = if addr == 4120 then some (main_symbol (codes "Zv")) else none

abbrev prog_message : ℕ → List ℕ
prog_message addr = codes "prog(+0x10)"

abbrev syms : List ℕ
syms = 7 ∷ 8 ∷ 77 ∷ 4120 ∷ 9 ∷ []

abbrev main_location : Location
main_location = record { file = some (codes "a.yr"); line = 5 }

-- The address in front of that of `main` has no symbol.
abbrev shown_before : List (ℕ × Shown)
shown_before = (77, unknown prog) ∷ []

resolve_stack_trace-main_example :
    resolve_stack_trace exists_prog
      (path_text dirs)
      (0 ∷ [])
      (λ file. debug_info)
      find_main
      prog_message
      0
      1
      syms
    ≡ resolve_stack_trace exists_prog
        (path_text dirs)
        (0 ∷ [])
        (λ file. debug_info)
        find_main
        prog_message
        0
        1
        (7 ∷ 8 ∷ 77 ∷ 4120 ∷ [])
unfolding message_filename resolve_path path_loop strtok end_token bytes_eq
resolve_stack_trace-main_example =
    resolve_stack_trace-main exists_prog (path_text dirs) (0 ∷ []) (λ file. debug_info) find_main
      prog_message 0 1 7 8 4120 (77 ∷ []) (9 ∷ []) prog bin_prog (codes "Zv") refl refl refl
