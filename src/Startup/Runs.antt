-- ===== src/Startup/Runs.antt =====
-- c/run.c: a program with one argument.
use yruntime.Base.{ℕ, ◌≡◌, List, [], ◌∷◌, map, none, some, false, length, codes, arith}
use yruntime.Slices.Code.{Slice}
use yruntime.Startup.Code.{Runtime, run_main_debug, run_main}
use yruntime.Startup.Main.{with_nul, slice_text, run_main-args}

abbrev unset : Runtime
unset = record {
  debug = 0;
  force_debug = 0;
  test_code = 0;
  main_args = [];
  handler = false;
  stacks = none;
}

abbrev args : List (List ℕ)
args = codes "prog" ∷ codes "-v" ∷ []

-- The program gives its arguments back.
run_main-args_example :
    (slices : List Slice) × (map slice_text slices ≡ args)
    × (run_main 100 7 (λ r s. s) (length args) (map with_nul args) unset ≡ some slices)
    × (run_main_debug 100 7 (λ r s. s) (length args) (map with_nul args) unset ≡ some slices)
run_main-args_example = run_main-args 100 7 (λ r s. s) args unset (omega arith)
