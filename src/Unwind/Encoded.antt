-- ===== src/Unwind/Encoded.antt =====
-- c/personality.c: the DWARF pointer encodings, `_yrt_exc_size_of_encoded_value`,
-- `_yrt_exc_base_of_encoded_value`, `_yrt_exc_read_encoded_value_with_base` and
-- `_yrt_exc_read_encoded_value`.
pub mod Sizes
use Prim.Native.Nat.{bit_and}
use yruntime.Base.{ℕ, ◌+◌, ◌%◌, ◌^◌, Option, none, some, Bool, ◌||◌, ◌==◌, if◌then◌else◌}
use yruntime.Unwind.Memory.{Memory, Outcome, ok, terminated, fault, ◌>>=◌, read_unaligned}
use yruntime.Unwind.Leb.{read_uleb128, read_sleb128}

-- What the unwinder's accessors return for a frame. `ip_before_insn` is the flag of
-- `_Unwind_GetIPInfo`, and `lsda` is 0 for NULL.
pub record Frame : Type 0 where
  pub lsda : ℕ
  pub cfa : ℕ
  pub ip : ℕ
  pub ip_before_insn : Bool
  pub region_start : ℕ
  pub text_base : ℕ
  pub data_base : ℕ

abbrev pub omit : ℕ
omit = 0xff

abbrev pub aligned : ℕ
aligned = 0x50

-- The size of a pointer is 8.
unfoldable pub size_of_encoded_value : ℕ → Outcome ℕ
size_of_encoded_value encoding =
    if encoding == omit
    then ok 0
    else if bit_and encoding 0x07 == 0x00
    then ok 8
    else if bit_and encoding 0x07 == 0x02
    then ok 2
    else if bit_and encoding 0x07 == 0x03
    then ok 4
    else if bit_and encoding 0x07 == 0x04
    then ok 8
    else terminated

-- An accessor on a NULL context is a fault.
abbrev pub accessor : Option Frame → (Frame → ℕ) → Outcome ℕ
accessor none get = fault
accessor (some frame) get = ok (get frame)

unfoldable pub base_of_encoded_value : ℕ → Option Frame → Outcome ℕ
base_of_encoded_value encoding context =
    if encoding == omit
    then ok 0
    else if (bit_and encoding 0x70 == 0x00)
        || (bit_and encoding 0x70 == 0x10)
        || (bit_and encoding 0x70 == 0x50)
    then ok 0
    else if bit_and encoding 0x70 == 0x20
    then accessor context (λ frame. frame.text_base)
    else if bit_and encoding 0x70 == 0x30
    then accessor context (λ frame. frame.data_base)
    else if bit_and encoding 0x70 == 0x40
    then accessor context (λ frame. frame.region_start)
    else terminated

-- A number of so many bytes, and the pointer behind it.
unfoldable pub read_sized : ℕ → Memory → ℕ → Outcome (ℕ × ℕ)
read_sized size mem p = read_unaligned size mem p >>= λ x. ok (x, p + size)

-- The switch on the format: the signed formats are read into unsigned variables.
unfoldable pub read_format : ℕ → Memory → ℕ → Outcome (ℕ × ℕ)
read_format format mem p =
    if format == 0x01
    then read_uleb128 mem p
    else if format == 0x09
    then read_sleb128 mem p
    else if (format == 0x02) || (format == 0x0A)
    then read_sized 2 mem p
    else if (format == 0x03) || (format == 0x0B)
    then read_sized 4 mem p
    else if (format == 0x04) || (format == 0x0C)
    then read_sized 8 mem p
    else if format == 0x00
    then read_sized 8 mem p
    else terminated

-- What is done with a value that is not 0. `slot` is the address of the caller's variable that
-- holds the pointer: `psave` is that address, and not the pointer itself.
unfoldable pub relocate : ℕ → ℕ → ℕ → Memory → ℕ → Outcome ℕ
relocate encoding base slot mem result =
    if result == 0
    then ok 0
    else let moved = (result + (if bit_and encoding 0x70 == 0x10 then slot else base)) % 2 ^ 64 in
      if bit_and encoding 0x80 == 0 then ok moved else read_unaligned 8 mem moved

-- In the aligned case the address is computed from `slot` too, with a mask of the one bit 8.
unfoldable pub read_encoded_value_with_base : ℕ → ℕ → ℕ → Memory → ℕ → Outcome (ℕ × ℕ)
read_encoded_value_with_base encoding base slot mem p = do
  (result, p') ←
      if encoding == aligned
      then read_sized 8 mem (bit_and ((slot + 7) % 2 ^ 64) 8)
      else read_format (bit_and encoding 0x0f) mem p
  value ← relocate encoding base slot mem result
  ok (value, p')

unfoldable pub read_encoded_value : Option Frame → ℕ → ℕ → Memory → ℕ → Outcome (ℕ × ℕ)
read_encoded_value context encoding slot mem p = do
  base ← base_of_encoded_value encoding context
  read_encoded_value_with_base encoding base slot mem p
