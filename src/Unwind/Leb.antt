-- ===== src/Unwind/Leb.antt =====
-- c/personality.c: `_yrt_exc_read_uleb128` and `_yrt_exc_read_sleb128`.
mod Values
pub mod Decode
pub mod Signed
use Prim.Native.Nat.{bit_and, bit_or}
use yruntime.Base.{ℕ, zero, suc, ◌+◌, ◌-◌, ◌*◌, ◌%◌, ◌^◌, ltb, ◌==◌, if◌then◌else◌}
use yruntime.Unwind.Memory.{Memory, Outcome, ok, fault, ◌>>=◌, load_byte}
unfoldable pub use Values.*

-- `result |= (b & 0x7F) << shift` on 64 bits.
abbrev pub add_group : ℕ → ℕ → ℕ → ℕ
add_group result b shift = bit_or result (bit_and b 0x7F * 2 ^ shift % 2 ^ 64)

-- The value, and the pointer behind the last byte. A shift of 64 or more is undefined in C, and a
-- fault here, so that the loop makes ten rounds at most.
unfoldable pub uleb_loop : ℕ → Memory → ℕ → ℕ → ℕ → Outcome (ℕ × ℕ)
uleb_loop zero mem p result shift = fault
uleb_loop (suc rounds) mem p result shift = do
  b ← load_byte mem p
  let more = uleb_loop rounds mem (p + 1) (add_group result b shift) (shift + 7)
  if ltb shift 64
      then (if bit_and b 0x80 == 0 then ok (add_group result b shift, p + 1) else more)
      else fault

unfoldable pub read_uleb128 : Memory → ℕ → Outcome (ℕ × ℕ)
read_uleb128 mem p = uleb_loop 10 mem p 0 0

-- What follows the loop: the sign is extended from bit 6 of the last byte.
unfoldable pub extend_sign : ℕ → ℕ → ℕ → ℕ
extend_sign result b shift =
    if ltb shift 64
    then (if bit_and b 0x40 == 0 then result else bit_or result (2 ^ 64 - 2 ^ shift))
    else result

unfoldable pub sleb_loop : ℕ → Memory → ℕ → ℕ → ℕ → Outcome (ℕ × ℕ)
sleb_loop zero mem p result shift = fault
sleb_loop (suc rounds) mem p result shift = do
  b ← load_byte mem p
  let more = sleb_loop rounds mem (p + 1) (add_group result b shift) (shift + 7)
  if ltb shift 64
      then (if bit_and b 0x80 == 0
          then ok (extend_sign (add_group result b shift) b (shift + 7), p + 1)
          else more)
      else fault

unfoldable pub read_sleb128 : Memory → ℕ → Outcome (ℕ × ℕ)
read_sleb128 mem p = sleb_loop 10 mem p 0 0
