-- ===== src/Floats/RoundTrip.antt =====
-- c/print.c and c/conv.c: a number that is turned to text and back.
use yruntime.Base.{
  ℕ, append-nil, ◌+◌, ◌≡◌, ◌≢◌, refl, ap, List, [], ◌∷◌, ◌++◌, Bool, true, false, not, ◌&&◌, ◌||◌,
  ◌==◌, some, All, drop-all, length, length-append, c_string, ==_iff, arith,
}
use yruntime.Utf.Arrays.{write_bytes-append}
use yruntime.Slices.Code.{Slice}
use yruntime.Floats.Code.{text_to_s8, double_to_s8, double_to_s8_exp}
use yruntime.Floats.Convert.{Parsed, s8_to_number, s8_to_double}

c_string_ended : (text rest : List ℕ) → All (λ b. b ≢ 0) text → c_string (text ++ 0 ∷ rest) ≡ text
unfolding c_string
c_string_ended [] rest h = refl
c_string_ended (b ∷ text) rest (ne, h) =
    let first : (b == 0) ≡ false = ground arith in
    rw first (ap (λ r. b ∷ r) (c_string_ended text rest h))

and_true : (b : Bool) → (b && true) ≡ b
and_true true = refl
and_true false = refl

text_to_s8-block :
    (gc_malloc : ℕ → List ℕ) (text : List ℕ)
    → ((n : ℕ) → length (gc_malloc n) ≡ n)
    → text_to_s8 gc_malloc text ≡ some (record { len = length text; data' = text ++ 0 ∷ [] })
unfolding text_to_s8
text_to_s8-block gc_malloc text size =
    let ended = text ++ 0 ∷ [] in
    let count = length-append text (0 ∷ []) in
    let block = gc_malloc (length text + 1) in
    let written = write_bytes-append ended [] block (omega (arith, size (length text + 1))) in
    let none_left = drop-all (length ended) block (omega (arith, size (length text + 1))) in
    rw (written, none_left, append-nil) refl

-- With blocks of the size that is asked for: where `snprintf` prints a text without a NUL that
-- `strtod` reads whole, the slices of `_yrt_double_to_s8` and of `_yrt_double_to_s8_exp` are
-- converted to what `strtod` makes of the text, and with success if neither this nor an earlier
-- call was out of range.
s8_to_double-double_to_s8 :
    {Float Double : Type 0} (gc_malloc : ℕ → List ℕ) (snprintf : ℕ → Double → List ℕ)
    (strtof : List ℕ → Parsed Float) (strtod : List ℕ → Parsed Double) (x : Double) (prec : ℕ)
    (is_erange : Bool)
    → ((n : ℕ) → length (gc_malloc n) ≡ n)
    → All (λ b. b ≢ 0) (snprintf prec x)
    → (strtod (snprintf prec x)).bytes ≡ length (snprintf prec x)
    → let parsed = strtod (snprintf prec x) in
      let is_erange' = is_erange || parsed.out_of_range in
      (arr : Slice) × (double_to_s8 gc_malloc snprintf x prec ≡ some arr)
      × (double_to_s8_exp gc_malloc snprintf x prec ≡ some arr)
      × (s8_to_double strtof strtod is_erange arr ≡ (parsed.value, not is_erange', is_erange'))
unfolding s8_to_number
s8_to_double-double_to_s8 gc_malloc snprintf strtof strtod x prec is_erange size plain whole =
    let text = snprintf prec x in
    let block = text_to_s8-block gc_malloc text size in
    let same = (==_iff _ _).1 whole in
    (_, block, block, rw (c_string_ended text [] plain, same, and_true) refl)
