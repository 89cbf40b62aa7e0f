-- ===== src/Reflect/Names.antt =====
-- The names of symbols: c/type.c, and the first halves of the `_yrt_reflect_get_*` functions of
-- c/reflect.c. A string is the list of its bytes, which `str_concat` appends.
use yruntime.Base.{ℕ, ◌+◌, List, [], ◌∷◌, ◌++◌, length}
use yruntime.Mangle.Decimal.{str_from_int}

abbrev pub type_typeinfo_name : List ℕ → List ℕ
type_typeinfo_name mangled = b'_' ∷ b'Y' ∷ (mangled ++ b'T' ∷ b'I' ∷ [])

abbrev pub type_vtable_name : List ℕ → List ℕ
type_vtable_name mangled = b'_' ∷ b'Y' ∷ (mangled ++ b'V' ∷ b'T' ∷ [])

-- "4self"
abbrev pub self_name : List ℕ
self_name = b'4' ∷ b's' ∷ b'e' ∷ b'l' ∷ b'f' ∷ []

unfoldable pub type_constructor_no_param_name : List ℕ → List ℕ
type_constructor_no_param_name mangled =
    let name = b'_' ∷ b'Y' ∷ (mangled ++ (self_name ++ b'F' ∷ [])) in
    let name = name ++ b'x' ∷ b'P' ∷ [] in
    let name = name ++ str_from_int (length mangled + 1) in
    let name = name ++ b'x' ∷ [] in
    let name = name ++ mangled in
    let name = name ++ b'Z' ∷ b'x' ∷ b'P' ∷ [] in
    let name = name ++ str_from_int (length mangled + 1) in
    let name = name ++ b'x' ∷ [] in name ++ mangled

-- The loop over the names of the parameters.
abbrev pub add_params : List ℕ → List (List ℕ) → List ℕ
add_params name [] = name
add_params name (p ∷ ps) = add_params (name ++ p) ps

abbrev pub add_return : List ℕ → List ℕ → List ℕ
add_return name ret = (name ++ b'Z' ∷ []) ++ ret

unfoldable pub function_name : List ℕ → List ℕ → List (List ℕ) → List ℕ
function_name mangle ret params =
    let name = b'_' ∷ b'Y' ∷ mangle in
    let name = name ++ b'F' ∷ [] in add_return (add_params name params) ret

-- What all the names of methods end with, behind the path.
abbrev pub add_self : List ℕ → List ℕ → List ℕ
add_self name class =
    let name = name ++ b'F' ∷ b'P' ∷ [] in
    let name = name ++ str_from_int (length class) in name ++ class

abbrev pub add_mutable_self : List ℕ → List ℕ → List ℕ
add_mutable_self name class =
    let name = name ++ b'F' ∷ b'x' ∷ b'P' ∷ [] in
    let name = name ++ str_from_int (length class + 1) in
    let name = name ++ b'x' ∷ [] in name ++ class

-- The names of methods, from what `_yrt_mangle_path` makes of the function's path.
unfoldable pub method_name : List ℕ → List ℕ → List ℕ → List (List ℕ) → List ℕ
method_name class path ret params =
    let name = (b'_' ∷ b'Y' ∷ class) ++ path in
    add_return (add_params (add_self name class) params) ret

unfoldable pub impl_method_name : List ℕ → List ℕ → List ℕ → List (List ℕ) → List ℕ
impl_method_name class path ret params =
    let name = b'_' ∷ b'Y' ∷ path in add_return (add_params (add_self name class) params) ret

unfoldable pub method_mutable_name : List ℕ → List ℕ → List ℕ → List (List ℕ) → List ℕ
method_mutable_name class path ret params =
    let name = (b'_' ∷ b'Y' ∷ class) ++ path in
    add_return (add_params (add_mutable_self name class) params) ret

unfoldable pub impl_method_mutable_name : List ℕ → List ℕ → List ℕ → List (List ℕ) → List ℕ
impl_method_mutable_name class path ret params =
    let name = b'_' ∷ b'Y' ∷ path in
    add_return (add_params (add_mutable_self name class) params) ret
