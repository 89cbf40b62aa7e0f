-- ===== src/Startup/Code.antt =====
-- c/run.c. The collector's `GC_INIT` and the signal's registration have no state but their flags.
use yruntime.Base.{
  ℕ, zero, suc, ◌+◌, List, [], ◌∷◌, Option, none, some, Bool, true, ◌==◌, if◌then◌else◌, ◌>>=◌,
}
use yruntime.Slices.Code.{Slice}
use yruntime.Except.State.{State, exc_init}

-- The variables of the file, whether the handler of the segmentation fault is installed, and the
-- stacks of the exceptions, where `_yrt_exc_init` has run.
pub record Runtime : Type 0 where
  pub debug : ℕ
  pub force_debug : ℕ
  pub test_code : ℕ
  pub main_args : List Slice
  pub handler : Bool
  pub stacks : Option State

-- `_yrt_force_debug`.
abbrev pub set_force_debug : ℕ → Runtime → Runtime
set_force_debug act r =
    if act == 0
    then record r { debug = r.force_debug }
    else record r { force_debug = r.debug; debug = 1 }

abbrev pub set_test_code : ℕ → Runtime → Runtime
set_test_code i r = record r { test_code = i }

abbrev pub get_main_args : Runtime → List Slice
get_main_args r = r.main_args

abbrev pub get_test_code : Runtime → ℕ
get_test_code r = r.test_code

-- `none` is a read past the last byte.
unfoldable pub strlen : List ℕ → Option ℕ
strlen [] = none
strlen (c ∷ cs) = let more = strlen cs in if c == 0 then some 0 else (do n ← more; some (n + 1))

-- The loop over the arguments, with so many left.
unfoldable pub args_loop : ℕ → List (List ℕ) → Option (List Slice)
args_loop zero argv = some []
args_loop (suc left) [] = none
args_loop (suc left) (arg ∷ argv) = do
  len ← strlen arg
  rest ← args_loop left argv
  some (record { len = len; data' = arg } ∷ rest)

abbrev pub create_args_array : ℕ → List (List ℕ) → Runtime → Option (Runtime × List Slice)
create_args_array len argv r = do arr ← args_loop len argv; some (record r { main_args = arr }, arr)

-- `GC_INIT`, `installHandler` and `_yrt_exc_init` with `global_stack` at the address, in the thread
-- `self`.
abbrev pub initialised : ℕ → ℕ → ℕ → Runtime → Runtime
initialised debug address self r = record r {
  debug = debug;
  handler = true;
  stacks = some (exc_init address self);
}

module _ {ℓ} {A : Type ℓ} (address self : ℕ) (y_main : Runtime → List Slice → A) where
  unfoldable pub run_main_debug : ℕ → List (List ℕ) → Runtime → Option A
  run_main_debug argc argv r = do
    (r', arr) ← create_args_array argc argv (initialised 1 address self r)
    some (y_main r' arr)

  unfoldable pub run_main : ℕ → List (List ℕ) → Runtime → Option A
  run_main argc argv r = do
    (r', arr) ← create_args_array argc argv (initialised 0 address self r)
    some (y_main r' arr)
