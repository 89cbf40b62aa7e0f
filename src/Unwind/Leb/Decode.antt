-- ===== src/Unwind/Leb/Decode.antt =====
-- c/personality.c: what the LEB128 readers return on bytes that stand in memory.
use Prim.Native.Nat.{bit_and, bit_or}
use native.Mathlib.Nat.{mul-le-mul_right}
use mathlib.Core.Path.{ap₂}
use native.Mathlib.Numerals.{towards_suc}
use yruntime.Base.{
  ℕ, zero, suc, ◌+◌, ◌*◌, ◌%◌, ◌^◌, ◌≤◌, ◌<◌, ◌≡◌, refl, ap, ◌∙◌, List, [], ◌∷◌, length, arith,
  lt→ltb, some, true, false, ◌==◌,
}
use yruntime.Base.Bits.{bit_and_127, bit_and_bit_128, bit_or_low}
use yruntime.Unwind.Memory.{Memory, ok, load_byte, Holds}
use yruntime.Unwind.Leb.{
  add_group, uleb_loop, read_uleb128, extend_sign, sleb_loop, IsLeb, leb_value,
}

pub load_byte_at : (mem : Memory) (p b : ℕ) → mem p ≡ some b → b < 256 → load_byte mem p ≡ ok b
unfolding load_byte
load_byte_at mem p b e h = rw (e, load_byte) (ap ok (omega arith))

-- A group that fits goes on top of the groups below it.
pub add_group_lem :
    (result b shift : ℕ)
    → result < 2 ^ shift
    → result + b % 128 * 2 ^ shift < 2 ^ 64
    → add_group result b shift ≡ result + b % 128 * 2 ^ shift
add_group_lem result b shift h k =
    rw bit_and_127
      (ap (bit_or result) (omega arith) ∙ bit_or_low shift (b % 128) result h ∙ omega arith)

pub next_scale : (shift : ℕ) → 2 ^ (shift + 7) ≡ 128 * 2 ^ shift
next_scale shift = simp towards_suc (omega arith)

pub group_bound : (b shift : ℕ) → b % 128 * 2 ^ shift ≤ 127 * 2 ^ shift
group_bound b shift = mul-le-mul_right (2 ^ shift) (omega arith)

pub last_bit : (b : ℕ) → b < 128 → (bit_and b 0x80 == 0) ≡ true
last_bit b h = ground (arith, bit_and_bit_128 b)

pub more_bit : (b : ℕ) → 128 ≤ b → b < 256 → (bit_and b 0x80 == 0) ≡ false
more_bit b h k = ground (arith, bit_and_bit_128 b)

-- The first group and the rest, at the scale of the shift.
pub leb_value_split :
    (b : ℕ) (bs : List ℕ) (shift : ℕ)
    → leb_value (b ∷ bs) * 2 ^ shift ≡ b % 128 * 2 ^ shift + leb_value bs * 2 ^ (shift + 7)
unfolding leb_value
leb_value_split b bs shift = omega (arith, ap (λ (t : ℕ). leb_value bs * t) (next_scale shift))

leb_value_pos : (bs : List ℕ) → leb_value bs * 1 ≡ leb_value bs
leb_value_pos bs = omega arith

-- One round of each loop, on a last byte and on one that goes on.
module _ (rounds : ℕ) (mem : Memory) (p b result shift : ℕ) (e : mem p ≡ some b)
    (s : shift < 64) where
  uleb_last :
      b < 128 → uleb_loop (suc rounds) mem p result shift ≡ ok (add_group result b shift, p + 1)
  unfolding uleb_loop
  uleb_last h = rw (load_byte_at mem p b e (omega arith), lt→ltb shift 64 s, last_bit b h)

  uleb_more :
      128 ≤ b
      → b < 256
      → uleb_loop (suc rounds) mem p result shift
        ≡ uleb_loop rounds mem (p + 1) (add_group result b shift) (shift + 7)
  unfolding uleb_loop
  uleb_more h k = rw (load_byte_at mem p b e k, lt→ltb shift 64 s, more_bit b h k) refl

  pub sleb_last :
      b < 128
      → sleb_loop (suc rounds) mem p result shift
        ≡ ok (extend_sign (add_group result b shift) b (shift + 7), p + 1)
  unfolding sleb_loop
  sleb_last h = rw (load_byte_at mem p b e (omega arith), lt→ltb shift 64 s, last_bit b h)

  pub sleb_more :
      128 ≤ b
      → b < 256
      → sleb_loop (suc rounds) mem p result shift
        ≡ sleb_loop rounds mem (p + 1) (add_group result b shift) (shift + 7)
  unfolding sleb_loop
  sleb_more h k = rw (load_byte_at mem p b e k, lt→ltb shift 64 s, more_bit b h k) refl

uleb_loop-leb_value :
    (bs : List ℕ) (rounds : ℕ) (mem : Memory) (p result shift : ℕ)
    → Holds mem p bs
    → IsLeb bs
    → length bs ≤ rounds
    → shift + 7 * length bs ≤ 70
    → result < 2 ^ shift
    → result + leb_value bs * 2 ^ shift < 2 ^ 64
    → uleb_loop rounds mem p result shift ≡ ok (result + leb_value bs * 2 ^ shift, p + length bs)
uleb_loop-leb_value [] rounds mem p result shift m l r s h k = absurd l
uleb_loop-leb_value (b ∷ bs) zero mem p result shift m l r s h k = absurd (omega arith)
uleb_loop-leb_value (b ∷ []) (suc rounds) mem p result shift (e, small, _) l r s h k =
    let split = leb_value_split b [] shift in
    let none_left : leb_value [] ≡ 0 = unfold leb_value in refl in
    let zero_left : leb_value [] * 2 ^ (shift + 7) ≡ 0 = rw none_left (omega arith) in
    uleb_last rounds mem p b result shift e (omega arith) l
    ∙ ap (λ v. ok (v, p + 1)) (add_group_lem result b shift h (omega arith) ∙ omega arith)
uleb_loop-leb_value (b ∷ c ∷ bs) (suc rounds) mem p result shift (e, small, m) (l, ls) r s h k =
    let split = leb_value_split b (c ∷ bs) shift in
    let scale = next_scale shift in
    let group = group_bound b shift in
    uleb_more rounds mem p b result shift e (omega arith) l small
    ∙ rw (add_group_lem result b shift h (omega arith)) (
        uleb_loop-leb_value (c ∷ bs) rounds mem (p + 1) (result + b % 128 * 2 ^ shift) (shift + 7) m
          ls (omega arith) (omega arith) (omega arith) (omega arith)
        ∙ ap₂ (λ v q. ok (v, q)) (omega arith) (omega arith))

-- For a number of at most ten bytes whose value fits 64 bits, `_yrt_exc_read_uleb128` returns the
-- value and leaves the pointer behind the last byte.
pub read_uleb128-leb_value :
    (bs : List ℕ) (mem : Memory) (p : ℕ)
    → Holds mem p bs
    → IsLeb bs
    → length bs ≤ 10
    → leb_value bs < 2 ^ 64
    → read_uleb128 mem p ≡ ok (leb_value bs, p + length bs)
unfolding read_uleb128
read_uleb128-leb_value bs mem p m l n h =
    uleb_loop-leb_value bs 10 mem p 0 0 m l n (omega arith) (omega arith) (omega arith)
    ∙ ap (λ v. ok (v, p + length bs)) (omega arith)
