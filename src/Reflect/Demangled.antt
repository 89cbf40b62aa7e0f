-- ===== src/Reflect/Demangled.antt =====
-- c/reflect.c: what `_yrt_demangle_symbol` makes of the names that are looked up.
use yruntime.Base.{
  ℕ, ◌^◌, ◌>>=◌, length-append, arith, ◌+◌, ◌<◌, ◌≡◌, refl, ap, sym, ◌∙◌, List, [], ◌∷◌, ◌++◌,
  append_assoc, append-nil, some, length, All, All-append,
}
use yruntime.Mangle.Decimal.{str_from_int}
use yruntime.Mangle.Paths.{mangle_path}
use yruntime.Mangle.Demangle.{call_mark, demangle_symbol}
use yruntime.Mangle.RoundTrip.{
  IsSegment, path_of, mangled, mangle_path-mangled, demangle_symbol-mangled,
}
use yruntime.Reflect.Names.{
  self_name, type_constructor_no_param_name, add_params, add_return, function_name, add_self,
  add_mutable_self, method_name, impl_method_name, method_mutable_name, impl_method_mutable_name,
}

add_params-append :
    (name more : List ℕ) (ps : List (List ℕ))
    → add_params (name ++ more) ps ≡ name ++ add_params more ps
add_params-append name more [] = refl
add_params-append name more (p ∷ ps) =
    rw (append_assoc name more p) (add_params-append name (more ++ p) ps)

-- What stands behind the path and its `F`.
add_return-append :
    (name more ret : List ℕ) (ps : List (List ℕ))
    → add_return (add_params (name ++ more) ps) ret ≡ name ++ add_return (add_params more ps) ret
add_return-append name more ret ps = rw (add_params-append name more ps) (simp append_assoc)

mangled-append : (ss us : List (List ℕ)) → mangled (ss ++ us) ≡ mangled ss ++ mangled us
unfolding mangled
mangled-append [] us = refl
mangled-append (s ∷ ss) us = rw (mangled-append ss us) (simp append_assoc)

-- The symbol of the constructor without parameters is the one that
-- `_yrt_reflect_get_method_mutable` looks up for `self`, mangled, without parameters, where the
-- name of the return type is that of a mutable pointer to the class.
pub type_constructor_no_param_name-method_mutable_name :
    (class : List ℕ)
    → type_constructor_no_param_name class
      ≡ method_mutable_name class self_name
          (b'x' ∷ b'P' ∷ (str_from_int (length class + 1) ++ b'x' ∷ class))
          []
unfolding type_constructor_no_param_name method_mutable_name
type_constructor_no_param_name-method_mutable_name class = simp append_assoc

add_self-append :
    (name class : List ℕ)
    → add_self name class ≡ (name ++ b'F' ∷ []) ++ b'P' ∷ (str_from_int (length class) ++ class)
add_self-append name class = simp append_assoc

add_mutable_self-append :
    (name class : List ℕ)
    → add_mutable_self name class
      ≡ (name ++ b'F' ∷ []) ++ b'x' ∷ b'P' ∷ (str_from_int (length class + 1) ++ b'x' ∷ class)
add_mutable_self-append name class = simp append_assoc

-- A symbol with the mangled path in front, and anything behind the `F`.
demangle_symbol-name :
    (name s ret more : List ℕ) (ts ps : List (List ℕ)) (len : ℕ)
    → IsSegment s
    → All IsSegment ts
    → 2 + length (mangled (s ∷ ts)) < 2 ^ 31
    → 2 < len
    → name ≡ (b'_' ∷ b'Y' ∷ mangled (s ∷ ts)) ++ b'F' ∷ []
    → demangle_symbol (add_return (add_params (name ++ more) ps) ret) len
      ≡ some (path_of s ts ++ call_mark)
demangle_symbol-name name s ret more ts ps len hs hts short long shape =
    let tail = add_return (add_params more ps) ret in
    rw
      (
        add_return-append name more ret ps,
        shape,
        append_assoc (b'_' ∷ b'Y' ∷ mangled (s ∷ ts)) (b'F' ∷ []) tail,
      )
      (demangle_symbol-mangled s ts tail len hs hts short long)

-- The names with the path of the class in front of the function's.
class_and_path :
    (s u : List ℕ) (ts us : List (List ℕ))
    → ((b'_' ∷ b'Y' ∷ mangled (s ∷ ts)) ++ mangled (u ∷ us)) ++ b'F' ∷ []
      ≡ (b'_' ∷ b'Y' ∷ mangled (s ∷ (ts ++ u ∷ us))) ++ b'F' ∷ []
class_and_path s u ts us =
    ap (λ path. (b'_' ∷ b'Y' ∷ path) ++ b'F' ∷ []) (sym (mangled-append (s ∷ ts) (u ∷ us)))

-- A class and a function whose paths are made of segments that are not empty, do not begin with a
-- digit, have no colon and no NUL, and are shorter than 2^31; each path has fewer than 2^31 - 1
-- bytes, and both mangled fewer than 2^31 - 2 together, so that no `int` overflows. The symbols
-- that the lookups build from the names that `_yrt_mangle_path` makes of the paths demangle to the
-- function's path with the mark of a call: a function and an implementation to its own path, a
-- method to that of the class with the function's behind it, whatever the parameters and the return
-- type are.
pub demangle_symbol-names :
    (s u class ret : List ℕ) (ts us ps : List (List ℕ)) (len : ℕ)
    → IsSegment s
    → All IsSegment ts
    → IsSegment u
    → All IsSegment us
    → length (path_of s ts) + 1 < 2 ^ 31
    → length (path_of u us) + 1 < 2 ^ 31
    → 2 + length (mangled (s ∷ (ts ++ u ∷ us))) < 2 ^ 31
    → 2 < len
    → ((mangle_path (path_of u us) >>= λ path. demangle_symbol (function_name path ret ps) len)
        ≡ some (path_of u us ++ call_mark))
      × ((mangle_path (path_of u us) >>= λ path.
            demangle_symbol (impl_method_name class path ret ps) len)
          ≡ some (path_of u us ++ call_mark))
      × ((mangle_path (path_of u us) >>= λ path.
            demangle_symbol (impl_method_mutable_name class path ret ps) len)
          ≡ some (path_of u us ++ call_mark))
      × ((mangle_path (path_of s ts) >>= λ class'. mangle_path (path_of u us) >>= λ path.
            demangle_symbol (method_name class' path ret ps) len)
          ≡ some (path_of s (ts ++ u ∷ us) ++ call_mark))
      × ((mangle_path (path_of s ts) >>= λ class'. mangle_path (path_of u us) >>= λ path.
            demangle_symbol (method_mutable_name class' path ret ps) len)
          ≡ some (path_of s (ts ++ u ∷ us) ++ call_mark))
unfolding function_name impl_method_name impl_method_mutable_name method_name method_mutable_name
demangle_symbol-names s u class ret ts us ps len hs hts hu hus class_short path_short short long =
    let path = mangled (u ∷ us) in
    let func = b'_' ∷ b'Y' ∷ path in
    let class' = mangled (s ∷ ts) in
    let method = (b'_' ∷ b'Y' ∷ class') ++ path in
    let joined = class_and_path s u ts us in
    let all = All-append IsSegment ts (u ∷ us) hts (hu, hus) in
    let both = ap length (mangled-append (s ∷ ts) (u ∷ us)) ∙ length-append class' path in
    let short' : 2 + length path < 2 ^ 31 = omega arith in
    rw (mangle_path-mangled s ts hs hts class_short, mangle_path-mangled u us hu hus path_short)
      (
        ap (λ name. demangle_symbol (add_return (add_params name ps) ret) len)
              (sym (append-nil (func ++ b'F' ∷ [])))
            ∙ demangle_symbol-name _ u ret [] us ps len hu hus short' long refl,
        rw (add_self-append func class)
            (demangle_symbol-name _ u ret _ us ps len hu hus short' long refl),
        rw (add_mutable_self-append func class)
            (demangle_symbol-name _ u ret _ us ps len hu hus short' long refl),
        rw (add_self-append method class')
            (demangle_symbol-name _ s ret _ (ts ++ u ∷ us) ps len hs all short long joined),
        rw (add_mutable_self-append method class')
            (demangle_symbol-name _ s ret _ (ts ++ u ∷ us) ps len hs all short long joined),
      )
