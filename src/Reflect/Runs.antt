-- ===== src/Reflect/Runs.antt =====
-- c/reflect.c: the symbols of a class `core::array` and of a function `at`.
use yruntime.Base.{ℕ, ◌≡◌, refl, List, [], ◌∷◌, ◌++◌, some, ◌>>=◌, arith}
use yruntime.Mangle.Decimal.{str_from_int}
use yruntime.Mangle.Paths.{mangle_path}
use yruntime.Mangle.Demangle.{call_mark, demangle_symbol}
use yruntime.Mangle.RoundTrip.{path_of, mangled}
use yruntime.Reflect.Names.{
  function_name, method_name, impl_method_name, method_mutable_name, impl_method_mutable_name,
}
use yruntime.Reflect.Demangled.{demangle_symbol-names}

abbrev module_name : List ℕ
module_name = b'c' ∷ b'o' ∷ b'r' ∷ b'e' ∷ []

abbrev class_name : List ℕ
class_name = b'a' ∷ b'r' ∷ b'r' ∷ b'a' ∷ b'y' ∷ []

abbrev func_name : List ℕ
func_name = b'a' ∷ b't' ∷ []

abbrev class_path : List ℕ
class_path = path_of module_name (class_name ∷ [])

abbrev int_type : List (List ℕ)
int_type = (b'i' ∷ []) ∷ []

demangle_symbol-names_example :
    ((mangle_path (path_of func_name []) >>= λ path.
    demangle_symbol (function_name path (b'v' ∷ []) int_type) 12)
      ≡ some (path_of func_name [] ++ call_mark))
    × ((mangle_path (path_of func_name []) >>= λ path.
          demangle_symbol (impl_method_name class_name path (b'v' ∷ []) int_type) 12)
        ≡ some (path_of func_name [] ++ call_mark))
    × ((mangle_path (path_of func_name []) >>= λ path.
          demangle_symbol (impl_method_mutable_name class_name path (b'v' ∷ []) int_type) 12)
        ≡ some (path_of func_name [] ++ call_mark))
    × ((mangle_path class_path >>= λ class'. mangle_path (path_of func_name []) >>= λ path.
          demangle_symbol (method_name class' path (b'v' ∷ []) int_type) 12)
        ≡ some (path_of module_name (class_name ∷ func_name ∷ []) ++ call_mark))
    × ((mangle_path class_path >>= λ class'. mangle_path (path_of func_name []) >>= λ path.
          demangle_symbol (method_mutable_name class' path (b'v' ∷ []) int_type) 12)
        ≡ some (path_of module_name (class_name ∷ func_name ∷ []) ++ call_mark))
demangle_symbol-names_example =
    demangle_symbol-names module_name func_name class_name (b'v' ∷ []) (class_name ∷ []) [] int_type
      12 (refl, omega arith, omega arith) ((refl, omega arith, omega arith), tt)
      (refl, omega arith, omega arith) tt (unfold path_of in omega arith)
      (unfold path_of in omega arith) (unfold mangled in unfold str_from_int in omega arith)
      (omega arith)
