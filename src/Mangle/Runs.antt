-- ===== src/Mangle/Runs.antt =====
-- c/demangle.c: runs on a symbol of the core library, and the theorems at it.
use yruntime.Base.{
  ℕ, ◌≡◌, refl, List, [], ◌∷◌, ◌++◌, some, ◌>>=◌, arith, replicate, length-replicate,
}
use yruntime.Strings.Code.{YString, str_create_len}
use yruntime.Mangle.Decimal.{str_from_int, demangle_number}
use yruntime.Mangle.Demangle.{call_mark, demangle_loop, add_call_mark, demangle_symbol}
use yruntime.Mangle.Paths.{path_end, mangle_loop, mangle_path}
use yruntime.Mangle.Built.{build_symbol, build_path}
use yruntime.Mangle.Builds.{Shows, build_symbol-demangle_symbol}
use yruntime.Mangle.PathBuilds.{build_path-mangle_path}
use yruntime.Mangle.RoundTrip.{path_of, mangled, demangle_symbol-mangle_path}

abbrev core : List ℕ
core = b'c' ∷ b'o' ∷ b'r' ∷ b'e' ∷ []

abbrev array : List ℕ
array = b'a' ∷ b'r' ∷ b'r' ∷ b'a' ∷ b'y' ∷ []

mangle_run : mangle_path (core ++ (b':' ∷ b':' ∷ array)) ≡ some (b'4' ∷ (core ++ (b'5' ∷ array)))
unfolding path_end mangle_path mangle_loop str_from_int
mangle_run = refl

-- The loop stops at the type's name behind the path.
demangle_run :
    demangle_symbol (b'_' ∷ b'Y' ∷ b'4' ∷ (core ++ (b'F' ∷ b'v' ∷ b'Z' ∷ []))) 9
    ≡ some (core ++ call_mark)
unfolding demangle_symbol demangle_loop demangle_number add_call_mark
demangle_run = refl

demangle_symbol-mangle_path_example :
    (mangle_path (path_of core (array ∷ [])) >>= λ path.
    demangle_symbol (b'_' ∷ b'Y' ∷ (path ++ (b'F' ∷ b'v' ∷ []))) 16)
    ≡ some (path_of core (array ∷ []) ++ call_mark)
demangle_symbol-mangle_path_example =
    demangle_symbol-mangle_path core (array ∷ []) (b'v' ∷ []) 16 (refl, omega arith, omega arith)
      ((refl, omega arith, omega arith), tt) (unfold path_of in omega arith)
      (unfold mangled in unfold str_from_int in omega arith) (omega arith)

abbrev zeroed : ℕ → List ℕ
zeroed n = replicate n 0

abbrev core_symbol : List ℕ
core_symbol = b'_' ∷ b'Y' ∷ b'4' ∷ (core ++ (b'F' ∷ b'v' ∷ b'Z' ∷ []))

build_symbol-demangle_symbol_example :
    (y : YString) × (build_symbol zeroed core_symbol 9 ≡ some y) × Shows y (core ++ call_mark)
build_symbol-demangle_symbol_example =
    build_symbol-demangle_symbol zeroed core_symbol (core ++ call_mark) 9
      (λ n. length-replicate n 0) (omega arith) demangle_run (omega arith)

build_path-mangle_path_example :
    build_path zeroed (core ++ (b':' ∷ b':' ∷ array))
    ≡ some (str_create_len (b'4' ∷ (core ++ (b'5' ∷ array))) 11)
build_path-mangle_path_example =
    build_path-mangle_path zeroed (core ++ (b':' ∷ b':' ∷ array)) (b'4' ∷ (core ++ (b'5' ∷ array)))
      (λ n. length-replicate n 0) mangle_run (omega arith)
