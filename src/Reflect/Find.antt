-- ===== src/Reflect/Find.antt =====
-- c/reflect.c: the lookups of symbols by their names. The symbol table is the indexed one of
-- core/reflect.yr; `find_symbol` stands for the lookup in it and gives 0 for a name that it lacks.
use yruntime.Base.{ℕ, List, Option, none, some, ◌==◌, if◌then◌else◌}
use yruntime.Mangle.Paths.{mangle_path}
use yruntime.Reflect.Names.{
  type_vtable_name, type_constructor_no_param_name, function_name, method_name, impl_method_name,
  method_mutable_name, impl_method_mutable_name,
}

-- A pointer, or the name that the message of the abort is about, or the overflow of an `int` in
-- `_yrt_mangle_path`.
pub data Found : Type 0 where
  found : ℕ → Found
  no_vtable : List ℕ → Found
  no_default_constructor : List ℕ → Found
  no_symbol : List ℕ → Found
  overflow : Found

-- The call of `_yrt_mangle_path`, and what follows it.
abbrev pub with_path : Option (List ℕ) → (List ℕ → Found) → Found
with_path none f = overflow
with_path (some path) f = f path

module _ (find_symbol : List ℕ → ℕ) where
  unfoldable pub get_vtable : List ℕ → List ℕ → Found
  get_vtable mangled class =
      let ptr = find_symbol (type_vtable_name mangled) in
      if ptr == 0 then no_vtable class else found ptr

  unfoldable pub get_constructor_no_param : List ℕ → List ℕ → Found
  get_constructor_no_param mangled class =
      let ptr = find_symbol (type_constructor_no_param_name mangled) in
      if ptr == 0 then no_default_constructor class else found ptr

  -- The end of the lookups of functions and methods.
  abbrev pub find_name : List ℕ → Found
  find_name name = let ptr = find_symbol name in if ptr == 0 then no_symbol name else found ptr

  unfoldable pub get_function : List ℕ → List ℕ → List (List ℕ) → Found
  get_function mangle ret params = find_name (function_name mangle ret params)

  unfoldable pub get_method : List ℕ → List ℕ → List ℕ → List (List ℕ) → Found
  get_method class func ret params =
      with_path (mangle_path func) (λ path. find_name (method_name class path ret params))

  unfoldable pub get_impl_method : List ℕ → List ℕ → List ℕ → List (List ℕ) → Found
  get_impl_method class func ret params =
      with_path (mangle_path func) (λ path. find_name (impl_method_name class path ret params))

  unfoldable pub get_method_mutable : List ℕ → List ℕ → List ℕ → List (List ℕ) → Found
  get_method_mutable class func ret params =
      with_path (mangle_path func) (λ path. find_name (method_mutable_name class path ret params))

  unfoldable pub get_impl_method_mutable : List ℕ → List ℕ → List ℕ → List (List ℕ) → Found
  get_impl_method_mutable class func ret params =
      with_path (mangle_path func)
        (λ path. find_name (impl_method_mutable_name class path ret params))
