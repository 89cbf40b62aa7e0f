-- ===== src/Startup/Main.antt =====
-- c/run.c: what the program's `main` is given, and the debug switch.
use yruntime.Base.{
  ℕ, ◌≡◌, ◌≢◌, refl, List, [], ◌∷◌, ◌++◌, map, some, true, length, take, take-append_length, All,
  arith,
}
use yruntime.Slices.Code.{Slice}
use yruntime.Trace.Frames.{is_debug}
use yruntime.Startup.Code.{
  Runtime, set_force_debug, strlen, args_loop, initialised, run_main_debug, run_main,
}

abbrev pub IsText : List ℕ → Type 0
IsText s = All (λ c. c ≢ 0) s

-- A text with its NUL.
abbrev pub with_nul : List ℕ → List ℕ
with_nul s = s ++ 0 ∷ []

-- An argument as a slice, and the text that a slice shows.
abbrev pub arg_slice : List ℕ → Slice
arg_slice s = record { len = length s; data' = with_nul s }

abbrev pub slice_text : Slice → List ℕ
slice_text s = take s.len s.data'

strlen-with_nul : (s : List ℕ) → IsText s → strlen (with_nul s) ≡ some (length s)
unfolding strlen
strlen-with_nul [] h = refl
strlen-with_nul (c ∷ cs) (hc, h) = ground (arith, strlen-with_nul cs h)

args_loop-slices :
    (args : List (List ℕ))
    → All IsText args
    → args_loop (length args) (map with_nul args) ≡ some (map arg_slice args)
unfolding args_loop
args_loop-slices [] h = refl
args_loop-slices (s ∷ args) (hs, h) = rw (strlen-with_nul s hs, args_loop-slices args h) refl

slices-text : (args : List (List ℕ)) → map slice_text (map arg_slice args) ≡ args
slices-text [] = refl
slices-text (s ∷ args) = rw (take-append_length s (0 ∷ []), slices-text args) refl

-- For arguments without a NUL inside, as many as are counted: both `_yrt_run_main` and
-- `_yrt_run_main_debug` call the program's `main` once, with the debugging off in the one and on in
-- the other, the handler installed and the stacks of the exceptions set up, and with slices that
-- show the arguments in their order, which are then those of `_yrt_get_main_args`.
pub run_main-args :
    {A : Type 0} (address self : ℕ) (y_main : Runtime → List Slice → A) (args : List (List ℕ))
    (r : Runtime)
    → All IsText args
    → (slices : List Slice) × (map slice_text slices ≡ args)
      × (run_main address self y_main (length args) (map with_nul args) r
          ≡ some (y_main (record (initialised 0 address self r) { main_args = slices }) slices))
      × (run_main_debug address self y_main (length args) (map with_nul args) r
          ≡ some (y_main (record (initialised 1 address self r) { main_args = slices }) slices))
unfolding run_main run_main_debug
run_main-args address self y_main args r h = (
  map arg_slice args,
  slices-text args,
  rw (args_loop-slices args h) refl,
  rw (args_loop-slices args h) refl,
)

-- Forcing the debugging makes traces, and letting go of it once brings back the switch that there
-- was. Where it is forced twice and let go of twice the debugging stays on, since the second
-- forcing overwrites the switch that was kept.
pub set_force_debug-pairs :
    (act act' : ℕ) (r : Runtime)
    → act ≢ 0
    → act' ≢ 0
    → (is_debug (set_force_debug act r).debug (set_force_debug act r).force_debug ≡ true)
      × ((set_force_debug 0 (set_force_debug act r)).debug ≡ r.debug)
      × ((set_force_debug 0
            (set_force_debug 0 (set_force_debug act' (set_force_debug act r)))).debug
          ≡ 1)
set_force_debug-pairs act act' r h h' = (ground arith, ground arith, ground arith)
