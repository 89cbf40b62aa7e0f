-- ===== src/Reflect/SelfMethod.antt =====
-- c/reflect.c: the constructor of a class, as a method.
use yruntime.Base.{
  refl, some, ℕ, ◌+◌, ◌≡◌, ◌↔◌, List, [], ◌∷◌, ◌++◌, length, ◌==◌, Bool-cases, inl, inr,
}
use yruntime.Mangle.Decimal.{str_from_int}
use yruntime.Mangle.Paths.{path_end, mangle_loop, mangle_path}
use yruntime.Reflect.Names.{self_name, type_constructor_no_param_name}
use yruntime.Reflect.Find.{found, get_constructor_no_param, get_method_mutable}
use yruntime.Reflect.Demangled.{type_constructor_no_param_name-method_mutable_name}

-- `_yrt_reflect_get_constructor_no_param` finds the function that `_yrt_reflect_get_method_mutable`
-- finds for the method `self` without parameters that returns a mutable pointer to the class, and
-- nothing where that finds nothing.
get_constructor_no_param-get_method_mutable :
    (find_symbol : List ℕ → ℕ) (class name : List ℕ) (ptr : ℕ)
    → (get_constructor_no_param find_symbol class name ≡ found ptr) ↔ (
        get_method_mutable find_symbol class
          (b's' ∷ b'e' ∷ b'l' ∷ b'f' ∷ [])
          (b'x' ∷ b'P' ∷ (str_from_int (length class + 1) ++ b'x' ∷ class))
          []
        ≡ found ptr)
unfolding get_constructor_no_param get_method_mutable
get_constructor_no_param-get_method_mutable find_symbol class name ptr =
    let symbol = find_symbol (type_constructor_no_param_name class) in
    let self : mangle_path (b's' ∷ b'e' ∷ b'l' ∷ b'f' ∷ []) ≡ some self_name =
      (unfold mangle_path in
        unfold path_end in unfold mangle_loop in unfold str_from_int in refl) in
    rw (self, ← type_constructor_no_param_name-method_mutable_name class)
      (elim (Bool-cases (symbol == 0)) [
        | inl e ↦ rw e ((λ h. cc), (λ h. cc))
        | inr e ↦ rw e ((λ h. h), (λ h. h))
      ])
