-- ===== src/Utf/RoundTrip.antt =====
-- c/print.c: one character through `_yrt_to_utf8` and `_yrt_to_utf32`.
use Prim.Native.Nat.{bit_and, bit_or}
use yruntime.Base.{
  ℕ, ◌+◌, ◌*◌, ◌/◌, ◌%◌, ◌^◌, ◌≤◌, ◌<◌, ◌≡◌, refl, ap, ◌∙◌, true, List, [], ◌∷◌, ◌++◌, none, some,
  ◌==◌, ==_iff, length, arith,
}
use yruntime.Base.Bits.{
  bit_and_7, bit_and_15, bit_and_31, bit_and_63, bit_and_127, bit_or_high, all_below, all_below_lem,
  zero-bit_or,
}
use mathlib.Core.List.{reverse}
use native.Mathlib.Nat.{zero-add}
use native.Mathlib.Decide.{dec_lt}
use yruntime.Utf.Code.{to_utf8, utf8_codepoint_size, decode_sized, to_utf32, join}

abbrev tail_byte : ℕ → ℕ
tail_byte x = 128 + x % 64

tail : (x : ℕ) → bit_or 0x80 (bit_and x 0x3F) ≡ tail_byte x
tail x = omega (arith, bit_and_63 x, bit_or_high 6 2 (bit_and x 0x3F) (omega (arith, bit_and_63 x)))

lead_2 : (x : ℕ) → bit_or 0xC0 (bit_and x 0x1F) ≡ 192 + x % 32
lead_2 x =
    omega (arith, bit_and_31 x, bit_or_high 5 6 (bit_and x 0x1F) (omega (arith, bit_and_31 x)))

lead_3 : (x : ℕ) → bit_or 0xE0 (bit_and x 0xF) ≡ 224 + x % 16
lead_3 x =
    omega (arith, bit_and_15 x, bit_or_high 4 14 (bit_and x 0xF) (omega (arith, bit_and_15 x)))

lead_4 : (x : ℕ) → bit_or 0xF0 (bit_and x 0x7) ≡ 240 + x % 8
lead_4 x = omega (arith, bit_and_7 x, bit_or_high 3 30 (bit_and x 0x7) (omega (arith, bit_and_7 x)))

-- UTF-8 in plain arithmetic, by the number of bytes.
pub to_utf8_one : (c : ℕ) → c < 128 → to_utf8 c ≡ c ∷ []
unfolding to_utf8
to_utf8_one c h = ground (arith, bit_and_127 c)

pub to_utf8_two : (c : ℕ) → 128 ≤ c → c < 2048 → to_utf8 c ≡ (192 + c / 64) ∷ (128 + c % 64) ∷ []
unfolding to_utf8
to_utf8_two c h k = ground (arith, lead_2 (c / 64), tail c)

pub to_utf8_three :
    (c : ℕ)
    → 2048 ≤ c
    → c < 65536
    → to_utf8 c ≡ (224 + c / 4096) ∷ (128 + c / 64 % 64) ∷ (128 + c % 64) ∷ []
unfolding to_utf8
to_utf8_three c h k = ground (arith, lead_3 (c / 64 / 64), tail (c / 64), tail c)

pub to_utf8_four :
    (c : ℕ)
    → 65536 ≤ c
    → c ≤ 0x10FFFF
    → to_utf8 c
      ≡ (240 + c / 262144) ∷ (128 + c / 4096 % 64) ∷ (128 + c / 64 % 64) ∷ (128 + c % 64) ∷ []
unfolding to_utf8
to_utf8_four c h k =
    ground (arith, lead_4 (c / 64 / 64 / 64), tail (c / 64 / 64), tail (c / 64), tail c)

abbrev pub HasSize : ℕ → ℕ → ℕ → Type 0
HasSize start count size = all_below (λ x. utf8_codepoint_size (start + x) == size) count ≡ true

pub size_one : HasSize 0 128 1
unfolding all_below utf8_codepoint_size
size_one = refl

pub size_two : HasSize 192 32 2
unfolding all_below utf8_codepoint_size
size_two = refl

pub size_three : HasSize 224 16 3
unfolding all_below utf8_codepoint_size
size_three = refl

pub size_four : HasSize 240 8 4
unfolding all_below utf8_codepoint_size
size_four = refl

pub size_at :
    (start count size x : ℕ)
    → HasSize start count size
    → x < count
    → utf8_codepoint_size (start + x) ≡ size
size_at start count size x t h = (==_iff _ size).0 (all_below_lem _ count x h t)

-- The fields of the four bytes add up.
join_lem :
    (a b c d : ℕ) → b < 64 → c < 64 → d < 64 → join a b c d ≡ a * 262144 + b * 4096 + c * 64 + d
join_lem a b c d hb hc hd =
    let top : bit_or (a * 2 ^ 18) (b * 2 ^ 12) ≡ (a * 64 + b) * 2 ^ 12 =
      omega (arith, bit_or_high 18 a (b * 2 ^ 12) (omega arith)) in
    let mid : bit_or ((a * 64 + b) * 2 ^ 12) (c * 2 ^ 6) ≡ (a * 4096 + b * 64 + c) * 2 ^ 6 =
      omega (arith, bit_or_high 12 (a * 64 + b) (c * 2 ^ 6) (omega arith)) in
    rw (top, mid) (omega (arith, bit_or_high 6 (a * 4096 + b * 64 + c) d (omega arith)))

-- A text is read by the row of its first byte, and by the last six bits of the bytes behind it.
pub read_one : (x : ℕ) (rest : List ℕ) → x < 128 → to_utf32 (x ∷ rest) ≡ some (x, 1)
unfolding to_utf32 decode_sized
read_one x rest h =
    let size : utf8_codepoint_size x ≡ 1 = rw zero-add at (size_at 0 128 1 x size_one h) in
    rw size (ground (arith, bit_and_127 x, zero-bit_or (bit_and x 127)))

pub read_two :
    (x y : ℕ) (rest : List ℕ) → x < 32 → to_utf32 ((192 + x) ∷ y ∷ rest) ≡ some (x * 64 + y % 64, 2)
unfolding to_utf32 decode_sized
read_two x y rest h =
    rw (size_at 192 32 2 x size_two h)
      (ground (arith, bit_and_31 (192 + x), bit_and_63 y, join_lem 0 0 x (y % 64)))

pub read_three :
    (x y z : ℕ) (rest : List ℕ)
    → x < 16
    → to_utf32 ((224 + x) ∷ y ∷ z ∷ rest) ≡ some (x * 4096 + y % 64 * 64 + z % 64, 3)
unfolding to_utf32 decode_sized
read_three x y z rest h = rw (size_at 224 16 3 x size_three h) (
    ground
      (arith, bit_and_15 (224 + x), bit_and_63 y, bit_and_63 z, join_lem 0 x (y % 64) (z % 64)))

pub read_four :
    (x y z w : ℕ) (rest : List ℕ)
    → x < 8
    → to_utf32 ((240 + x) ∷ y ∷ z ∷ w ∷ rest)
      ≡ some (x * 262144 + y % 64 * 4096 + z % 64 * 64 + w % 64, 4)
unfolding to_utf32 decode_sized
read_four x y z w rest h = rw (size_at 240 8 4 x size_four h) (
    ground (
      arith,
      bit_and_7 (240 + x),
      bit_and_63 y,
      bit_and_63 z,
      bit_and_63 w,
      join_lem x (y % 64) (z % 64) (w % 64),
    ))

-- For every code point up to 0x10FFFF, `_yrt_to_utf32` at the bytes that `_yrt_to_utf8` wrote,
-- whatever follows them, returns that code point and the number of those bytes.
pub to_utf32-to_utf8 :
    (c : ℕ) (rest : List ℕ)
    → c ≤ 0x10FFFF
    → to_utf32 (to_utf8 c ++ rest) ≡ some (c, length (to_utf8 c))
to_utf32-to_utf8 c rest h = elim (dec_lt c 128) [
  | yes p ↦ rw (to_utf8_one c p) (read_one c rest p)
  | no p ↦ elim (dec_lt c 2048) [
    | yes q ↦
        rw (to_utf8_two c (omega arith) q) (
          read_two (c / 64) (128 + c % 64) rest (omega arith) ∙ ap (λ t. some (t, 2)) (omega arith))
    | no q ↦ elim (dec_lt c 65536) [
      | yes r ↦ rw (to_utf8_three c (omega arith) r) (
          read_three (c / 4096) (128 + c / 64 % 64) (128 + c % 64) rest (omega arith)
          ∙ ap (λ t. some (t, 3)) (omega arith))
      | no r ↦ rw (to_utf8_four c (omega arith) h) (
          read_four (c / 262144) (128 + c / 4096 % 64) (128 + c / 64 % 64) (128 + c % 64) rest
            (omega arith)
          ∙ ap (λ t. some (t, 4)) (omega arith))
    ]
  ]
]

-- Above 0x10FFFF the three bytes are those of the replacement character U+FFFD in the reverse
-- order, and `_yrt_to_utf32` on them reads a fourth byte, which is past the end of the text.
to_utf8_replacement :
    (c : ℕ) → 0x10FFFF < c → (to_utf8 c ≡ reverse (to_utf8 0xFFFD)) × (to_utf32 (to_utf8 c) ≡ none)
unfolding to_utf8 to_utf32 decode_sized utf8_codepoint_size
to_utf8_replacement c h = ground arith

-- A character takes one to four bytes.
pub length-to_utf8 : (c : ℕ) → (1 ≤ length (to_utf8 c)) × (length (to_utf8 c) ≤ 4)
unfolding to_utf8
length-to_utf8 c = ground arith
