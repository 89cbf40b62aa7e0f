-- ===== src/Utf/Streams.antt =====
-- c/print.c: a character printed and read again.
use yruntime.Base.{
  ℕ, ◌+◌, ◌*◌, ◌/◌, ◌%◌, ◌≤◌, ◌<◌, ◌≡◌, List, [], ◌∷◌, ◌++◌, some, c_string, ltb, if◌then◌else◌,
  arith,
}
use native.Mathlib.Nat.{zero-add}
use native.Mathlib.Decide.{dec_lt}
use yruntime.Utf.Code.{to_utf8, utf8_codepoint_size}
use yruntime.Utf.RoundTrip.{
  to_utf8_one, to_utf8_two, to_utf8_three, to_utf8_four, read_one, read_two, read_three, read_four,
  size_at, size_one, size_two, size_three, size_four,
}
use yruntime.Utf.Input.{putwchar, scan_chars, getwchar, fgetc, file_chars, getwchar_in_file}

-- The bytes of the array.
abbrev pub array : ℕ → ℕ → ℕ → ℕ → ℕ → List ℕ
array c0 c1 c2 c3 c4 = c0 ∷ c1 ∷ c2 ∷ c3 ∷ c4 ∷ []

module _ (c0 c1 c2 c3 c4 : ℕ) (rest : List ℕ) where
  getwchar_one : (x : ℕ) → x < 128 → getwchar (array c0 c1 c2 c3 c4) (x ∷ rest) ≡ some (x, rest)
  unfolding getwchar scan_chars
  getwchar_one x h =
      let size : utf8_codepoint_size x ≡ 1 = rw zero-add at (size_at 0 128 1 x size_one h) in
      rw size (ground (arith, read_one x (c1 ∷ c2 ∷ c3 ∷ c4 ∷ []) h))

  getwchar_two :
      (x y : ℕ)
      → x < 32
      → getwchar (array c0 c1 c2 c3 c4) ((192 + x) ∷ y ∷ rest) ≡ some (x * 64 + y % 64, rest)
  unfolding getwchar scan_chars
  getwchar_two x y h =
      rw (size_at 192 32 2 x size_two h) (ground (arith, read_two x y (c2 ∷ c3 ∷ c4 ∷ []) h))

  getwchar_three :
      (x y z : ℕ)
      → x < 16
      → getwchar (array c0 c1 c2 c3 c4) ((224 + x) ∷ y ∷ z ∷ rest)
        ≡ some (x * 4096 + y % 64 * 64 + z % 64, rest)
  unfolding getwchar scan_chars
  getwchar_three x y z h =
      rw (size_at 224 16 3 x size_three h) (ground (arith, read_three x y z (c3 ∷ c4 ∷ []) h))

  getwchar_four :
      (x y z w : ℕ)
      → x < 8
      → getwchar (array c0 c1 c2 c3 c4) ((240 + x) ∷ y ∷ z ∷ w ∷ rest)
        ≡ some (x * 262144 + y % 64 * 4096 + z % 64 * 64 + w % 64, rest)
  unfolding getwchar scan_chars
  getwchar_four x y z w h =
      rw (size_at 240 8 4 x size_four h) (ground (arith, read_four x y z w (c4 ∷ []) h))

  file_one : (x : ℕ) → x < 128 → getwchar_in_file (array c0 c1 c2 c3 c4) (x ∷ rest) ≡ some (x, rest)
  unfolding getwchar_in_file file_chars fgetc
  file_one x h =
      let size : utf8_codepoint_size x ≡ 1 = rw zero-add at (size_at 0 128 1 x size_one h) in
      rw size (ground (arith, read_one x (c1 ∷ c2 ∷ c3 ∷ c4 ∷ []) h))

  file_two :
      (x y : ℕ)
      → x < 32
      → getwchar_in_file (array c0 c1 c2 c3 c4) ((192 + x) ∷ y ∷ rest)
        ≡ some (x * 64 + c1 % 64, rest)
  unfolding getwchar_in_file file_chars fgetc
  file_two x y h =
      rw (size_at 192 32 2 x size_two h) (ground (arith, read_two x c1 (y ∷ c3 ∷ c4 ∷ []) h))

  file_three :
      (x y z : ℕ)
      → x < 16
      → getwchar_in_file (array c0 c1 c2 c3 c4) ((224 + x) ∷ y ∷ z ∷ rest)
        ≡ some (x * 4096 + c1 % 64 * 64 + y % 64, rest)
  unfolding getwchar_in_file file_chars fgetc
  file_three x y z h =
      rw (size_at 224 16 3 x size_three h) (ground (arith, read_three x c1 y (z ∷ c4 ∷ []) h))

  file_four :
      (x y z w : ℕ)
      → x < 8
      → getwchar_in_file (array c0 c1 c2 c3 c4) ((240 + x) ∷ y ∷ z ∷ w ∷ rest)
        ≡ some (x * 262144 + c1 % 64 * 4096 + y % 64 * 64 + z % 64, rest)
  unfolding getwchar_in_file file_chars fgetc
  file_four x y z w h =
      rw (size_at 240 8 4 x size_four h) (ground (arith, read_four x c1 y z (w ∷ []) h))

  -- The characters from 1 to 0x10FFFF: `_yrt_getwchar` reads what `_yrt_putwchar` printed, takes
  -- its bytes from the input and no more, whatever the array held.
  pub getwchar-putwchar :
      (code : ℕ)
      → 0 < code
      → code ≤ 0x10FFFF
      → getwchar (array c0 c1 c2 c3 c4) (putwchar code ++ rest) ≡ some (code, rest)
  unfolding putwchar c_string
  getwchar-putwchar code pos h = elim (dec_lt code 128) [
    | yes p ↦ rw (to_utf8_one code p) (ground (arith, getwchar_one code p))
    | no p ↦ elim (dec_lt code 2048) [
      | yes q ↦
          rw (to_utf8_two code (omega arith) q)
            (ground (arith, getwchar_two (code / 64) (128 + code % 64) (omega arith)))
      | no q ↦ elim (dec_lt code 65536) [
        | yes r ↦ rw (to_utf8_three code (omega arith) r) (
            ground (
              arith,
              getwchar_three (code / 4096) (128 + code / 64 % 64) (128 + code % 64) (omega arith),
            ))
        | no r ↦ rw (to_utf8_four code (omega arith) h) (
            ground (
              arith,
              getwchar_four (code / 262144) (128 + code / 4096 % 64) (128 + code / 64 % 64)
                  (128 + code % 64) (omega arith),
            ))
      ]
    ]
  ]

  -- What comes of a character when the second byte of the array is not the one that was read, and
  -- the bytes behind it are the ones in front of them.
  abbrev pub shifted : ℕ → ℕ
  shifted code =
      if ltb code 128
      then code
      else if ltb code 2048
      then code / 64 * 64 + c1 % 64
      else if ltb code 65536
      then code / 4096 * 4096 + c1 % 64 * 64 + code / 64 % 64
      else code / 262144 * 262144 + c1 % 64 * 4096 + code / 4096 % 64 * 64 + code / 64 % 64

  -- The characters up to 0x10FFFF: `_yrt_getwchar_in_file` takes the bytes of a character from the
  -- file, and returns a character of one byte as it is. Of a longer one it loses the last byte,
  -- since the bytes behind the first are stored one place too far, and takes the byte that the
  -- array held.
  pub getwchar_in_file-shifted :
      (code : ℕ)
      → code ≤ 0x10FFFF
      → getwchar_in_file (array c0 c1 c2 c3 c4) (to_utf8 code ++ rest) ≡ some (shifted code, rest)
  getwchar_in_file-shifted code h = elim (dec_lt code 128) [
    | yes p ↦ rw (to_utf8_one code p) (ground (arith, file_one code p))
    | no p ↦ elim (dec_lt code 2048) [
      | yes q ↦
          rw (to_utf8_two code (omega arith) q)
            (ground (arith, file_two (code / 64) (128 + code % 64) (omega arith)))
      | no q ↦ elim (dec_lt code 65536) [
        | yes r ↦ rw (to_utf8_three code (omega arith) r) (
            ground (
              arith,
              file_three (code / 4096) (128 + code / 64 % 64) (128 + code % 64) (omega arith),
            ))
        | no r ↦ rw (to_utf8_four code (omega arith) h) (
            ground (
              arith,
              file_four (code / 262144) (128 + code / 4096 % 64) (128 + code / 64 % 64)
                  (128 + code % 64) (omega arith),
            ))
      ]
    ]
  ]
