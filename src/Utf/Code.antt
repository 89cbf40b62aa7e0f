-- ===== src/Utf/Code.antt =====
-- c/print.c, `_yrt_to_utf8`, `utf8_codepoint_size`, `_yrt_to_utf32` and the two array loops.
-- A char is its bit pattern, a number below 256; `unsigned int` is a number below 2 ^ 32.
use Prim.Native.Nat.{bit_and, bit_or}
use yruntime.Base.{
  ℕ, zero, suc, ◌+◌, ◌-◌, ◌*◌, ◌/◌, ◌^◌, List, [], ◌∷◌, ◌++◌, Option, none, some, ltb, leb, ◌==◌,
  if◌then◌else◌, length, get_elem?, set, take, drop, replicate, ◌>>=◌, ◌>>◌, guard,
}

-- The bytes that `_yrt_to_utf8` leaves before the final NUL; `*nb` is their number.
unfoldable pub to_utf8 : ℕ → List ℕ
to_utf8 code =
    if leb code 0x7F
    then bit_and code 0x7F ∷ []
    else if leb code 0x7FF
    then bit_or 0xC0 (bit_and (code / 2 ^ 6) 0x1F) ∷ bit_or 0x80 (bit_and code 0x3F) ∷ []
    else if leb code 0xFFFF
    then bit_or 0xE0 (bit_and (code / 2 ^ 6 / 2 ^ 6) 0xF)
      ∷ bit_or 0x80 (bit_and (code / 2 ^ 6) 0x3F)
      ∷ bit_or 0x80 (bit_and code 0x3F)
      ∷ []
    else if leb code 0x10FFFF
    then bit_or 0xF0 (bit_and (code / 2 ^ 6 / 2 ^ 6 / 2 ^ 6) 0x7)
      ∷ bit_or 0x80 (bit_and (code / 2 ^ 6 / 2 ^ 6) 0x3F)
      ∷ bit_or 0x80 (bit_and (code / 2 ^ 6) 0x3F)
      ∷ bit_or 0x80 (bit_and code 0x3F)
      ∷ []
    else 0xBD ∷ 0xBF ∷ 0xEF ∷ []

unfoldable pub utf8_codepoint_size : ℕ → ℕ
utf8_codepoint_size c =
    if bit_and c 0x80 == 0
    then 1
    else if bit_and c 0xE0 == 0xC0
    then 2
    else if bit_and c 0xF0 == 0xE0
    then 3
    else 4

-- `(b0 << 18) | (b1 << 12) | (b2 << 6) | b3`
abbrev pub join : ℕ → ℕ → ℕ → ℕ → ℕ
join b0 b1 b2 b3 = bit_or (bit_or (bit_or (b0 * 2 ^ 18) (b1 * 2 ^ 12)) (b2 * 2 ^ 6)) b3

-- The fields that the `switch` reads and masks; the others are 0. The list is the text from
-- `text[0]` on, and `none` is a read past its end.
unfoldable pub decode_sized : ℕ → List ℕ → Option ℕ
decode_sized size text =
    if size == 4
    then (do
      a ← get_elem? text 0
      b ← get_elem? text 1
      c ← get_elem? text 2
      d ← get_elem? text 3
      some (join (bit_and a 0x07) (bit_and b 0x3F) (bit_and c 0x3F) (bit_and d 0x3F)))
    else if size == 3
    then (do
      b ← get_elem? text 0
      c ← get_elem? text 1
      d ← get_elem? text 2
      some (join 0 (bit_and b 0x0F) (bit_and c 0x3F) (bit_and d 0x3F)))
    else if size == 2
    then (do
      c ← get_elem? text 0
      d ← get_elem? text 1
      some (join 0 0 (bit_and c 0x1F) (bit_and d 0x3F)))
    else (do d ← get_elem? text 0; some (join 0 0 0 (bit_and d 0x7F)))

-- The code point and `*byte_count`.
unfoldable pub to_utf32 : List ℕ → Option (ℕ × ℕ)
to_utf32 text = do
  lead ← get_elem? text 0
  code ← decode_sized (utf8_codepoint_size lead) text
  some (code, utf8_codepoint_size lead)

-- The first loop of `_yrt_to_utf8_array`: the number of bytes.
unfoldable pub utf8_length : List ℕ → ℕ
utf8_length [] = 0
utf8_length (c ∷ cs) = length (to_utf8 c) + utf8_length cs

-- A write of the bytes and of the final NUL of `_yrt_to_utf8` at `offset` of the buffer; `none`
-- is a write past its end.
unfoldable pub write_bytes : List ℕ → ℕ → List ℕ → Option (List ℕ)
write_bytes buffer offset [] = some buffer
write_bytes buffer offset (b ∷ bs) =
    if ltb offset (length buffer) then write_bytes (set buffer offset b) (offset + 1) bs else none

-- The second loop: each character is written behind the one before it. `offset` is an `int`, and
-- `none` is also its overflow.
unfoldable pub fill_utf8 : List ℕ → List ℕ → ℕ → Option (List ℕ)
fill_utf8 [] buffer offset = some buffer
fill_utf8 (c ∷ cs) buffer offset = do
  buffer ← write_bytes buffer offset (to_utf8 c ++ (0 ∷ []))
  let more = fill_utf8 cs buffer (offset + length (to_utf8 c))
  guard (ltb (offset + length (to_utf8 c)) (2 ^ 31)) >> more

-- `_yrt_to_utf8_array`: a zeroed buffer of `len + 1` bytes, of which the array shows `len`.
unfoldable pub to_utf8_array : List ℕ → Option (List ℕ)
to_utf8_array codes = do
  buffer ← fill_utf8 codes (replicate (utf8_length codes + 1) 0) 0
  some (take (utf8_length codes) buffer)

-- The loop of `_yrt_to_utf32_array`, over what is left of the text. Each round takes one to four
-- bytes; `rest` is what follows the array in memory, which a cut character makes the loop read.
unfoldable pub utf32_loop : ℕ → List ℕ → ℕ → Option (List ℕ)
utf32_loop zero text left = none
utf32_loop (suc fuel) text zero = some []
utf32_loop (suc fuel) text (suc left) = do
  (code, nb) ← to_utf32 text
  codes ← utf32_loop fuel (drop nb text) (suc left - nb)
  some (code ∷ codes)

-- `_yrt_to_utf32_array`: each round takes a byte at least. The index `j` of the result is an `int`
-- that counts the rounds, and overflows just where its last value, their number, is none.
unfoldable pub to_utf32_array : List ℕ → ℕ → Option (List ℕ)
to_utf32_array memory len = do
  codes ← utf32_loop (len + 1) memory len
  guard (ltb (length codes) (2 ^ 31)) >> some codes
