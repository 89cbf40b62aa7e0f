-- ===== src/Reflect/Wide.antt =====
-- c/reflect.c: the lookups by names in UTF-32.
use yruntime.Base.{ℕ, zero, suc, List, [], ◌∷◌, map, Option, none, some, ◌>>=◌, length}
use yruntime.Utf.Code.{to_utf8_array}
use yruntime.Reflect.Find.{Found, get_function, get_method, get_method_mutable}

-- The names of the parameters, converted.
abbrev pub to_utf8_arrays : List (List ℕ) → Option (List (List ℕ))
to_utf8_arrays [] = some []
to_utf8_arrays (p ∷ ps) = do name ← to_utf8_array p; names ← to_utf8_arrays ps; some (name ∷ names)

-- `dupl_any` gives the address of a copy of a slice, and `memory` the bytes at an address.
module _ (find_symbol : List ℕ → ℕ) (dupl_any : List ℕ → ℕ) (memory : ℕ → ℕ → List ℕ) where
  -- So many slices, of two words each, where the block holds one address for each; `none` is a read
  -- past the block.
  unfoldable pub read_slices : ℕ → List ℕ → Option (List (List ℕ))
  read_slices zero words = some []
  read_slices (suc n) [] = none
  read_slices (suc n) (len ∷ []) = none
  read_slices (suc n) (len ∷ ptr ∷ words) = do
    names ← read_slices n words
    some (memory ptr len ∷ names)

  unfoldable pub wide_params : List (List ℕ) → Option (List (List ℕ))
  wide_params params = do
    names ← to_utf8_arrays params
    read_slices (length params) (map dupl_any names)

  unfoldable pub get_function_utf32 : List ℕ → List ℕ → List (List ℕ) → Option Found
  get_function_utf32 name ret params = do
    func ← to_utf8_array name
    ret' ← to_utf8_array ret
    names ← wide_params params
    some (get_function find_symbol func ret' names)

  unfoldable pub get_method_utf32 : List ℕ → List ℕ → List ℕ → List (List ℕ) → Option Found
  get_method_utf32 class name ret params = do
    class' ← to_utf8_array class
    func ← to_utf8_array name
    ret' ← to_utf8_array ret
    names ← wide_params params
    some (get_method find_symbol class' func ret' names)

  unfoldable pub get_method_mutable_utf32 : List ℕ → List ℕ → List ℕ → List (List ℕ) → Option Found
  get_method_mutable_utf32 class name ret params = do
    class' ← to_utf8_array class
    func ← to_utf8_array name
    ret' ← to_utf8_array ret
    names ← wide_params params
    some (get_method_mutable find_symbol class' func ret' names)
