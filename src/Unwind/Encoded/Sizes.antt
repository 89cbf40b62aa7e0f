-- ===== src/Unwind/Encoded/Sizes.antt =====
-- c/personality.c: how the reader of encoded values treats sizes, signs and relative values.
use Prim.Native.Nat.{bit_and}
use yruntime.Base.{
  ◌^◌, ℕ, ◌+◌, ◌%◌, ◌≤◌, ◌<◌, ◌≡◌, ◌≢◌, ◌⊎◌, false, refl, List, [], ◌∷◌, length, arith, true, Bool,
  ◌&&◌, ◌||◌, ltb, ◌==◌,
}
use yruntime.Base.Bytes.{le_value}
use yruntime.Base.Bits.{bit_and_7, bit_and_15, all_below, all_below_lem}
use yruntime.Unwind.Memory.{
  Memory, Outcome, ok, terminated, fault, no_fuel, ◌>>=◌, read_unaligned, Holds,
}
use yruntime.Unwind.Leb.Decode.{load_byte_at}
use yruntime.Unwind.Encoded.{
  omit, aligned, read_sized, size_of_encoded_value, read_format, relocate,
  read_encoded_value_with_base,
}

read_sized_pointer :
    (size : ℕ) (mem : Memory) (p v p' : ℕ) → read_sized size mem p ≡ ok (v, p') → p' ≡ p + size
unfolding read_sized
read_sized_pointer size mem p v p' h = ground arith

-- The size that the low three bits of a format stand for.
format_size :
    (encoding n : ℕ)
    → encoding ≢ omit
    → size_of_encoded_value encoding ≡ ok n
    → (((encoding % 8 ≡ 0) ⊎ (encoding % 8 ≡ 4)) × (n ≡ 8))
      ⊎ ((encoding % 8 ≡ 2) × (n ≡ 2))
      ⊎ ((encoding % 8 ≡ 3) × (n ≡ 4))
unfolding size_of_encoded_value
format_size encoding n ne h = ground (arith, bit_and_7 encoding)

read_format_pointer :
    (format n : ℕ) (mem : Memory) (p v p' : ℕ)
    → (((format % 8 ≡ 0) ⊎ (format % 8 ≡ 4)) × (n ≡ 8))
      ⊎ ((format % 8 ≡ 2) × (n ≡ 2))
      ⊎ ((format % 8 ≡ 3) × (n ≡ 4))
    → format < 16
    → read_format format mem p ≡ ok (v, p')
    → p' ≡ p + n
unfolding read_format
read_format_pointer format n mem p v p' s h r = ground (
  arith,
  read_sized_pointer 2 mem p v p',
  read_sized_pointer 4 mem p v p',
  read_sized_pointer 8 mem p v p',
)

pair_pointer :
    (r : Outcome (ℕ × ℕ)) (g : ℕ → Outcome ℕ) (v p' : ℕ)
    → ◌>>=◌ {B = ℕ × ℕ} r (λ (w, q). g w >>= λ value. ok (value, q)) ≡ ok (v, p')
    → (w : ℕ) × (r ≡ ok (w, p'))
pair_pointer (ok (w, q)) g v p' h = (w, ground arith)
pair_pointer terminated g v p' h = cc
pair_pointer fault g v p' h = cc
pair_pointer no_fuel g v p' h = cc

-- The pointer that a read leaves is the one that its format leaves.
read_pointer :
    (encoding base slot : ℕ) (mem : Memory) (p v p' : ℕ)
    → encoding ≢ aligned
    → read_encoded_value_with_base encoding base slot mem p ≡ ok (v, p')
    → (w : ℕ) × (read_format (encoding % 16) mem p ≡ ok (w, p'))
unfolding read_encoded_value_with_base
read_pointer encoding base slot mem p v p' na h =
    let plain : (encoding == aligned) ≡ false = ground arith in
    pair_pointer (read_format (encoding % 16) mem p) (relocate encoding base slot mem) v p'
      (rw (plain, bit_and_15) at h)

-- Where `_yrt_exc_size_of_encoded_value` gives a size for an encoding that is neither the omitted
-- nor the aligned one, a read of that encoding moves the pointer by that size: the entries of a
-- type table stand where the reader expects them.
read_encoded-size :
    (encoding base slot : ℕ) (mem : Memory) (p n v p' : ℕ)
    → encoding ≢ omit
    → encoding ≢ aligned
    → size_of_encoded_value encoding ≡ ok n
    → read_encoded_value_with_base encoding base slot mem p ≡ ok (v, p')
    → p' ≡ p + n
read_encoded-size encoding base slot mem p n v p' ne na s r =
    let (w, e) = read_pointer encoding base slot mem p v p' na r in
    let size = format_size encoding n ne s in
    read_format_pointer (encoding % 16) n mem p w p' (omega arith) (omega arith) e

high_table : ℕ → Bool
high_table x =
    (bit_and (x + 8) 0x70 == bit_and x 0x70) && (bit_and (x + 8) 0x80 == bit_and x 0x80)
    || ltb 4 (x % 16)

high_table_lem : all_below high_table 256 ≡ true
unfolding all_below high_table
high_table_lem = refl

-- The bit that marks a format as signed is in neither of the higher fields.
high_fields :
    (x : ℕ)
    → x < 256
    → x % 16 ≤ 4
    → (bit_and (x + 8) 0x70 ≡ bit_and x 0x70) × (bit_and (x + 8) 0x80 ≡ bit_and x 0x80)
unfolding high_table
high_fields x h k = ground (arith, all_below_lem high_table 256 x h high_table_lem)

read_format_signed :
    (format : ℕ) (mem : Memory) (p : ℕ)
    → 2 ≤ format
    → format ≤ 4
    → read_format (format + 8) mem p ≡ read_format format mem p
unfolding read_format
read_format_signed format mem p h k = ground arith

-- The signed two, four and eight byte formats are read like the unsigned ones: whatever the other
-- fields of the encoding, the value is not sign-extended.
read_encoded_signed :
    (encoding base slot : ℕ) (mem : Memory) (p : ℕ)
    → encoding < 256
    → 2 ≤ encoding % 16
    → encoding % 16 ≤ 4
    → read_encoded_value_with_base (encoding + 8) base slot mem p
      ≡ read_encoded_value_with_base encoding base slot mem p
unfolding read_encoded_value_with_base relocate
read_encoded_signed encoding base slot mem p h l k =
    let (relative, indirect) = high_fields encoding h k in
    let nibble : (encoding + 8) % 16 ≡ encoding % 16 + 8 = omega arith in
    let plain : (encoding == aligned) ≡ false = ground arith in
    let plain' : (encoding + 8 == aligned) ≡ false = ground arith in
    rw
      (
        plain,
        plain',
        bit_and_15,
        bit_and_15,
        nibble,
        relative,
        indirect,
        read_format_signed (encoding % 16) mem p l k,
      )
      refl

-- A little-endian number.
read_unaligned-le_value :
    (bs : List ℕ) (mem : Memory) (p : ℕ)
    → Holds mem p bs
    → read_unaligned (length bs) mem p ≡ ok (le_value bs)
unfolding read_unaligned
read_unaligned-le_value [] mem p h = refl
read_unaligned-le_value (b ∷ bs) mem p (e, small, h) =
    rw (load_byte_at mem p b e small, read_unaligned-le_value bs mem (p + 1) h) refl

-- A four-byte relative value, of the encoding 0x1B, that is not 0: the address of the variable
-- that holds the pointer is added to it, and not the place of the value, and its sign is lost.
read_encoded_relative :
    (bs : List ℕ) (base slot : ℕ) (mem : Memory) (p : ℕ)
    → Holds mem p bs
    → length bs ≡ 4
    → le_value bs ≢ 0
    → read_encoded_value_with_base 0x1B base slot mem p ≡ ok ((le_value bs + slot) % 2 ^ 64, p + 4)
unfolding read_encoded_value_with_base read_format relocate read_sized
read_encoded_relative bs base slot mem p h n nz =
    let read = rw n at (read_unaligned-le_value bs mem p h) in
    let tested : (le_value bs == 0) ≡ false = ground arith in rw (read, tested) refl
