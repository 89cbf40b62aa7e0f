-- ===== src/Floats/Code.antt =====
-- c/print.c: floating point numbers printed, and as slices of text. The numbers, their comparisons
-- and what the family of `printf` makes of them are parameters.
use yruntime.Base.{
  ℕ, ◌+◌, List, [], ◌∷◌, ◌++◌, Bool, ◌&&◌, ◌||◌, Option, some, if◌then◌else◌, ◌>>=◌, length, codes,
}
use yruntime.Utf.Code.{write_bytes}
use yruntime.Slices.Code.{Slice}

-- A type of numbers with the comparisons to the constants, and its texts by the formats.
pub record Float : Type 1 where
  pub Number : Type 0
  pub above_1e6 : Number → Bool
  pub below_minus_1e6 : Number → Bool
  pub below_1e_minus_6 : Number → Bool
  pub above_minus_1e_minus_6 : Number → Bool
  pub sprintf : List ℕ → Number → List ℕ

-- What the process has written.
pub record Output : Type 0 where
  pub stdout : List ℕ
  pub stderr : List ℕ

abbrev pub print_out : List ℕ → Output → Output
print_out text out = record out { stdout = out.stdout ++ text }

abbrev pub print_error : List ℕ → Output → Output
print_error text out = record out { stderr = out.stderr ++ text }

-- The choice between two formats that the functions make.
unfoldable pub number_text : (f : Float) → List ℕ → List ℕ → f.Number → List ℕ
number_text f exponent general x =
    if f.above_1e6 x || f.below_minus_1e6 x
    then f.sprintf exponent x
    else if f.below_1e_minus_6 x && f.above_minus_1e_minus_6 x
    then f.sprintf exponent x
    else f.sprintf general x

-- The types `float`, `double` and `long double`.
module _ (float double long_double : Float) where
  abbrev pub printf32 : float.Number → Output → Output
  printf32 x = print_out (number_text float (codes "%e") (codes "%.6g") x)

  abbrev pub printf64 : double.Number → Output → Output
  printf64 x = print_out (number_text double (codes "%le") (codes "%.6lg") x)

  abbrev pub printf80 : long_double.Number → Output → Output
  printf80 x = print_out (number_text long_double (codes "%Le") (codes "%.6Lg") x)

  abbrev pub printfsize : long_double.Number → Output → Output
  printfsize x = print_out (number_text long_double (codes "%Le") (codes "%.6Lg") x)

  abbrev pub eprintf32 : float.Number → Output → Output
  eprintf32 x = print_error (number_text float (codes "%e") (codes "%.6g") x)

  abbrev pub eprintf64 : double.Number → Output → Output
  eprintf64 x = print_error (number_text double (codes "%le") (codes "%.6lg") x)

  abbrev pub eprintf80 : long_double.Number → Output → Output
  eprintf80 x = print_error (number_text long_double (codes "%Le") (codes "%.6Lg") x)

  abbrev pub eprintfsize : long_double.Number → Output → Output
  eprintfsize x = print_error (number_text long_double (codes "%Le") (codes "%.6Lg") x)

-- `text` is what `snprintf` prints of a number, in so many bytes, with a NUL behind.
unfoldable pub text_to_s8 : (ℕ → List ℕ) → List ℕ → Option Slice
text_to_s8 gc_malloc text = do
  res ← write_bytes (gc_malloc (length text + 1)) 0 (text ++ 0 ∷ [])
  some (record { len = length text; data' = res })

-- `snprintf_f` and `snprintf_e` are the texts in the formats `%.*lf` and `%.*e`.
module _ {Number : Type 0} (gc_malloc : ℕ → List ℕ) where
  abbrev pub double_to_s8 : (ℕ → Number → List ℕ) → Number → ℕ → Option Slice
  double_to_s8 snprintf_f x prec = text_to_s8 gc_malloc (snprintf_f prec x)

  abbrev pub double_to_s8_exp : (ℕ → Number → List ℕ) → Number → ℕ → Option Slice
  double_to_s8_exp snprintf_e x prec = text_to_s8 gc_malloc (snprintf_e prec x)
