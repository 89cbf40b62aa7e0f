-- ===== src/Utf/Runs.antt =====
-- c/print.c: runs on concrete text, and the theorems at it.
use yruntime.Base.{◌≡◌, refl, [], ◌∷◌, ◌++◌, some, length, arith, ◌>>=◌}
use yruntime.Utf.Code.{
  utf8_length, to_utf8, utf8_codepoint_size, decode_sized, to_utf32, to_utf8_array, to_utf32_array,
}
use yruntime.Utf.Arrays.{to_utf32_array-to_utf8_array}
use yruntime.Utf.Input.{putwchar, getwchar, getwchar_in_file}
use yruntime.Utf.Streams.{array, getwchar-putwchar, getwchar_in_file-shifted}

-- The euro sign.
euro : to_utf8 0x20AC ≡ 0xE2 ∷ 0x82 ∷ 0xAC ∷ []
unfolding to_utf8
euro = refl

euro_back : to_utf32 (0xE2 ∷ 0x82 ∷ 0xAC ∷ []) ≡ some (0x20AC, 3)
unfolding to_utf32 decode_sized utf8_codepoint_size
euro_back = refl

to_utf32_array-to_utf8_array_example :
    (to_utf8_array (0x41 ∷ 0x20AC ∷ []) >>= λ bytes.
    to_utf32_array (bytes ++ (0xFF ∷ [])) (length bytes))
    ≡ some (0x41 ∷ 0x20AC ∷ [])
to_utf32_array-to_utf8_array_example =
    to_utf32_array-to_utf8_array (0x41 ∷ 0x20AC ∷ []) (0xFF ∷ []) (omega arith)
      (unfold utf8_length in unfold to_utf8 in omega arith)

-- The euro sign through a stream, with an `A` behind it.
getwchar-putwchar_example :
    getwchar (array 1 2 3 4 5) (putwchar 0x20AC ++ (0x41 ∷ [])) ≡ some (0x20AC, 0x41 ∷ [])
getwchar-putwchar_example =
    getwchar-putwchar 1 2 3 4 5 (0x41 ∷ []) 0x20AC (omega arith) (omega arith)

-- From a file it comes as U+2082, with 2 in the array.
getwchar_in_file-shifted_example :
    getwchar_in_file (array 1 2 3 4 5) (to_utf8 0x20AC ++ (0x41 ∷ [])) ≡ some (0x2082, 0x41 ∷ [])
getwchar_in_file-shifted_example =
    getwchar_in_file-shifted 1 2 3 4 5 (0x41 ∷ []) 0x20AC (omega arith)
