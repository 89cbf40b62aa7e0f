-- ===== src/Utf/Input.antt =====
-- c/print.c: `_yrt_putwchar`, `_yrt_getwchar` and `_yrt_getwchar_in_file`. A stream is the list of
-- its bytes, and the array `char c[5]` holds any bytes at first.
use yruntime.Base.{
  ℕ, zero, suc, ◌+◌, ◌-◌, List, [], ◌∷◌, Option, some, get_elem?, set, c_string, ◌>>=◌,
}
use yruntime.Utf.Code.{to_utf8, utf8_codepoint_size, to_utf32}

-- What `printf ("%s", …)` prints; `_yrt_eputwchar` prints it to `stderr`.
unfoldable pub putwchar : ℕ → List ℕ
putwchar code = c_string (to_utf8 code)

-- So many `scanf ("%c", &c[i])`, from the place `i` on; at the end of the input the byte is left as
-- it is.
unfoldable pub scan_chars : ℕ → ℕ → List ℕ → List ℕ → List ℕ × List ℕ
scan_chars zero i c input = (c, input)
scan_chars (suc n) i c [] = scan_chars n (i + 1) c []
scan_chars (suc n) i c (x ∷ input) = scan_chars n (i + 1) (set c i x) input

-- The code point, and what is left of the input.
unfoldable pub getwchar : List ℕ → List ℕ → Option (ℕ × List ℕ)
getwchar c input = do
  let (c1, input1) = scan_chars 1 0 c input
  lead ← get_elem? c1 0
  let (c2, input2) = scan_chars (utf8_codepoint_size lead - 1) 1 c1 input1
  (code, nb) ← to_utf32 c2
  some (code, input2)

-- `fgetc`, as a `char`: the end of the file is -1.
unfoldable pub fgetc : List ℕ → ℕ × List ℕ
fgetc [] = (0xFF, [])
fgetc (x ∷ input) = (x, input)

-- The loop stores to `c[i + 1]`.
unfoldable pub file_chars : ℕ → ℕ → List ℕ → List ℕ → List ℕ × List ℕ
file_chars zero i c input = (c, input)
file_chars (suc n) i c input =
    let (x, input') = fgetc input in file_chars n (i + 1) (set c (i + 1) x) input'

unfoldable pub getwchar_in_file : List ℕ → List ℕ → Option (ℕ × List ℕ)
getwchar_in_file c input = do
  let (x, input1) = fgetc input
  lead ← get_elem? (set c 0 x) 0
  let (c2, input2) = file_chars (utf8_codepoint_size lead - 1) 1 (set c 0 x) input1
  (code, nb) ← to_utf32 c2
  some (code, input2)
