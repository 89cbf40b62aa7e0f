-- ===== src/Reflect/WideParams.antt =====
-- c/reflect.c: the lookups by names in UTF-32, and those in UTF-8.
use yruntime.Base.{
  ℕ, ◌^◌, ◌∙◌, bind-inverse, bind-some, Option-cases, inl, inr, zero, suc, ◌*◌, ◌<◌, ◌≡◌, refl, ap,
  List, [], ◌∷◌, map, none, some, length, arith,
}
use yruntime.Utf.Code.{utf8_length, to_utf8_array}
use yruntime.Utf.Arrays.{encode, to_utf8_array-encode}
use yruntime.Reflect.Find.{get_function, get_method, get_method_mutable}
use yruntime.Reflect.Wide.{
  to_utf8_arrays, read_slices, wide_params, get_function_utf32, get_method_utf32,
  get_method_mutable_utf32,
}

length-to_utf8_arrays :
    (ps names : List (List ℕ)) → to_utf8_arrays ps ≡ some names → length names ≡ length ps
length-to_utf8_arrays [] names run = let same : names ≡ [] = cc in rw same refl
length-to_utf8_arrays (p ∷ ps) names run =
    let (name, _, run') = bind-inverse (to_utf8_array p) _ run in
    let (rest, read, run'') = bind-inverse (to_utf8_arrays ps) _ run' in
    let same : name ∷ rest ≡ names = cc in rw (← same) (ap suc (length-to_utf8_arrays ps rest read))

length-map : (g : List ℕ → ℕ) (ps : List (List ℕ)) → length (map g ps) ≡ length ps
length-map g [] = refl
length-map g (p ∷ ps) = ap suc (length-map g ps)

module _ (find_symbol : List ℕ → ℕ) (dupl_any : List ℕ → ℕ) (memory : ℕ → ℕ → List ℕ) where
  read_slices-short :
      (n : ℕ) (words : List ℕ)
      → length words < n * 2
      → read_slices find_symbol dupl_any memory n words ≡ none
  unfolding read_slices
  read_slices-short zero words h = absurd (omega arith)
  read_slices-short (suc n) [] h = refl
  read_slices-short (suc n) (len ∷ []) h = refl
  read_slices-short (suc n) (len ∷ ptr ∷ words) h =
      rw (read_slices-short n words (omega arith)) refl

  wide_params-cons :
      (p : List ℕ) (ps : List (List ℕ)) → wide_params find_symbol dupl_any memory (p ∷ ps) ≡ none
  unfolding wide_params
  wide_params-cons p ps = elim (Option-cases (to_utf8_arrays (p ∷ ps))) [
    | inl overflows ↦ rw overflows refl
    | inr (names, converted) ↦
        let sizes = length-to_utf8_arrays (p ∷ ps) names converted in
        bind-some (to_utf8_arrays (p ∷ ps)) _ converted
        ∙ read_slices-short (length (p ∷ ps)) (map dupl_any names)
            (omega (arith, length-map dupl_any names))
  ]

  -- Names whose texts in UTF-8 have fewer than 2^31 bytes. Without parameters, the three lookups by
  -- names in UTF-32 are those by the names in UTF-8. With a parameter or more, each reads past the
  -- block of the names that it passes on, since it stores an address where a slice is read.
  utf32-params :
      (class name ret p : List ℕ) (ps : List (List ℕ))
      → utf8_length class < 2 ^ 31
      → utf8_length name < 2 ^ 31
      → utf8_length ret < 2 ^ 31
      → (get_function_utf32 find_symbol dupl_any memory name ret []
          ≡ some (get_function find_symbol (encode name) (encode ret) []))
        × (get_method_utf32 find_symbol dupl_any memory class name ret []
            ≡ some (get_method find_symbol (encode class) (encode name) (encode ret) []))
        × (get_method_mutable_utf32 find_symbol dupl_any memory class name ret []
            ≡ some (get_method_mutable find_symbol (encode class) (encode name) (encode ret) []))
        × (get_function_utf32 find_symbol dupl_any memory name ret (p ∷ ps) ≡ none)
        × (get_method_utf32 find_symbol dupl_any memory class name ret (p ∷ ps) ≡ none)
        × (get_method_mutable_utf32 find_symbol dupl_any memory class name ret (p ∷ ps) ≡ none)
  unfolding get_function_utf32 get_method_utf32 get_method_mutable_utf32
  utf32-params class name ret p ps class_short name_short ret_short =
      let many = wide_params-cons p ps in
      let nothing : wide_params find_symbol dupl_any memory [] ≡ some [] =
        unfold wide_params in unfold read_slices in refl in
      rw
        (
          to_utf8_array-encode class class_short,
          to_utf8_array-encode name name_short,
          to_utf8_array-encode ret ret_short,
          nothing,
          many,
        )
        (refl, refl, refl, refl, refl, refl)
