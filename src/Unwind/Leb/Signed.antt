-- ===== src/Unwind/Leb/Signed.antt =====
-- c/personality.c: what `_yrt_exc_read_sleb128` returns on bytes that stand in memory.
use Prim.Native.Nat.{bit_and, bit_or}
use Prim.Native.Nat.add
use native.Mathlib.Nat.{mul-le-mul_right, pow-suc, one-le-pow, pow-le-pow_right}
use native.Mathlib.Decide.{dec_lt}
use mathlib.Core.Path.{ap₂}
use yruntime.Base.{
  ℕ, zero, suc, ◌+◌, ◌-◌, ◌*◌, ◌%◌, ◌^◌, ◌≤◌, ◌<◌, ◌≡◌, refl, ap, ◌∙◌, List, [], ◌∷◌, length, arith,
  ltb, lt→ltb, le→ltb_false, true, false, ◌==◌,
}
use yruntime.Base.Bits.{bit_and_bit_64, bit_or_low}
use yruntime.Unwind.Memory.{Memory, ok, Holds}
use yruntime.Unwind.Leb.{
  add_group, extend_sign, sleb_loop, read_sleb128, IsLeb, leb_value, leb_scale, signed_at,
  sleb_value,
}
use yruntime.Unwind.Leb.Decode.{
  add_group_lem, next_scale, group_bound, leb_value_split, sleb_last, sleb_more,
}

pow_split : (m n : ℕ) → 2 ^ m * 2 ^ n ≡ 2 ^ (m + n)
pow_split zero n = rw add.zero (omega arith)
pow_split (suc m) n = rw (add.suc, pow-suc, pow-suc) (omega (arith, pow_split m n))

pred_mul : (a m : ℕ) → 0 < a → (a - 1) * m ≡ a * m - m
pred_mul zero m h = absurd (omega arith)
pred_mul (suc a) m h = let e : suc a - 1 ≡ a = omega arith in rw e (omega arith)

-- The bits from `n` up.
high_bits : (n : ℕ) → n < 64 → 2 ^ 64 - 2 ^ n ≡ (2 ^ (64 - n) - 1) * 2 ^ n
high_bits n h =
    let sum : 64 - n + n ≡ 64 = omega arith in
    let whole : 2 ^ (64 - n) * 2 ^ n ≡ 2 ^ 64 = pow_split (64 - n) n ∙ ap (λ k. 2 ^ k) sum in
    omega (arith, pred_mul (2 ^ (64 - n)) (2 ^ n) (one-le-pow (64 - n) 2 (omega arith)))

or_high_bits : (n r : ℕ) → n < 64 → r < 2 ^ n → bit_or r (2 ^ 64 - 2 ^ n) ≡ r + (2 ^ 64 - 2 ^ n)
or_high_bits n r h k = rw (high_bits n h) (omega (arith, bit_or_low n (2 ^ (64 - n) - 1) r k))

extend_sign_lem :
    (result b shift : ℕ)
    → shift < 57
    → result < 2 ^ shift
    → b < 128
    → extend_sign (result + b * 2 ^ shift) b (shift + 7)
      ≡ signed_at (result + b * 2 ^ shift) (2 ^ (shift + 7))
unfolding extend_sign
extend_sign_lem result b shift s h k = elim (dec_lt b 64) [
  | yes low ↦
      let room : b * 2 ^ shift ≤ 63 * 2 ^ shift = mul-le-mul_right (2 ^ shift) (omega arith) in
      let positive : ltb (2 * (result + b * 2 ^ shift)) (2 ^ (shift + 7)) ≡ true =
        lt→ltb _ _ (omega (arith, next_scale shift)) in
      let bit : (bit_and b 0x40 == 0) ≡ true = ground (arith, bit_and_bit_64 b) in
      rw (lt→ltb (shift + 7) 64 (omega arith), bit, positive) refl
  | no high ↦
      let full : b * 2 ^ shift ≤ 127 * 2 ^ shift = mul-le-mul_right (2 ^ shift) (omega arith) in
      let room : 64 * 2 ^ shift ≤ b * 2 ^ shift = mul-le-mul_right (2 ^ shift) (omega arith) in
      let negative : ltb (2 * (result + b * 2 ^ shift)) (2 ^ (shift + 7)) ≡ false =
        le→ltb_false _ _ (omega (arith, next_scale shift)) in
      let bit : (bit_and b 0x40 == 0) ≡ false = ground (arith, bit_and_bit_64 b) in
      rw (lt→ltb (shift + 7) 64 (omega arith), bit, negative)
        (or_high_bits (shift + 7) (result + b * 2 ^ shift) (omega arith)
          (omega (arith, next_scale shift)))
]

leb_scale_one : (b : ℕ) → leb_scale (b ∷ []) ≡ 128
unfolding leb_scale
leb_scale_one b = refl

leb_scale_more : (b : ℕ) (bs : List ℕ) → leb_scale (b ∷ bs) ≡ 128 * leb_scale bs
unfolding leb_scale
leb_scale_more b bs = refl

leb_value-lt-leb_scale : (bs : List ℕ) → leb_value bs < leb_scale bs
unfolding leb_value leb_scale
leb_value-lt-leb_scale [] = omega arith
leb_value-lt-leb_scale (b ∷ bs) = omega (arith, leb_value-lt-leb_scale bs)

room : (shift : ℕ) → shift + 7 ≤ 63 → 128 * 2 ^ shift ≤ 2 ^ 63
room shift h = omega (arith, next_scale shift, pow-le-pow_right {n = 2} (omega arith) h)

-- A group in front, as the value and as the scale of what it begins.
value_step :
    (result b shift : ℕ) (bs : List ℕ)
    → result + b % 128 * 2 ^ shift + leb_value bs * 2 ^ (shift + 7)
      ≡ result + leb_value (b ∷ bs) * 2 ^ shift
value_step result b shift bs = omega (arith, leb_value_split b bs shift)

scale_step :
    (b shift : ℕ) (bs : List ℕ) → 2 ^ (shift + 7) * leb_scale bs ≡ 2 ^ shift * leb_scale (b ∷ bs)
scale_step b shift bs = rw (leb_scale_more, next_scale) (omega arith)

value_last :
    (result b shift : ℕ)
    → b < 128
    → result + b * 2 ^ shift ≡ result + leb_value (b ∷ []) * 2 ^ shift
unfolding leb_value
value_last result b shift h = let e : b % 128 + 0 ≡ b = omega arith in rw e refl

scale_last : (b shift : ℕ) → 2 ^ (shift + 7) ≡ 2 ^ shift * leb_scale (b ∷ [])
scale_last b shift = rw (leb_scale_one, next_scale) (omega arith)

group_last :
    (result b shift : ℕ)
    → b < 128
    → shift + 7 ≤ 63
    → result < 2 ^ shift
    → add_group result b shift ≡ result + b * 2 ^ shift
group_last result b shift k s h =
    let e : b % 128 ≡ b = omega arith in
    add_group_lem result b shift h (omega (arith, group_bound b shift, room shift s)) ∙ rw e refl

sleb_loop-signed_at :
    (bs : List ℕ) (rounds : ℕ) (mem : Memory) (p result shift : ℕ)
    → Holds mem p bs
    → IsLeb bs
    → length bs ≤ rounds
    → shift + 7 * length bs ≤ 63
    → result < 2 ^ shift
    → sleb_loop rounds mem p result shift
      ≡ ok (signed_at (result + leb_value bs * 2 ^ shift) (2 ^ shift * leb_scale bs), p + length bs)
sleb_loop-signed_at [] rounds mem p result shift m l r s h = absurd l
sleb_loop-signed_at (b ∷ bs) zero mem p result shift m l r s h = absurd (omega arith)
sleb_loop-signed_at (b ∷ []) (suc rounds) mem p result shift (e, small, _) l r s h =
    sleb_last rounds mem p b result shift e (omega arith) l
    ∙ rw (group_last result b shift l (omega arith) h) (
        rw (extend_sign_lem result b shift (omega arith) h l) (
          ap₂ (λ v t. ok (signed_at v t, p + 1)) (value_last result b shift l)
            (scale_last b shift)))
sleb_loop-signed_at (b ∷ c ∷ bs) (suc rounds) mem p result shift (e, small, m) (l, ls) r s h =
    let bound = group_bound b shift in
    let scale = next_scale shift in
    let tail = c ∷ bs in
    let behind : p + 1 + length tail ≡ p + suc (length tail) = omega arith in
    sleb_more rounds mem p b result shift e (omega arith) l small
    ∙ rw (add_group_lem result b shift h (omega (arith, room shift (omega arith)))) (
        sleb_loop-signed_at (c ∷ bs) rounds mem (p + 1) (result + b % 128 * 2 ^ shift) (shift + 7) m
          ls (omega arith) (omega arith) (omega arith)
        ∙ rw (value_step result b shift tail, scale_step b shift tail, behind) refl)

-- For a number of at most nine bytes, `_yrt_exc_read_sleb128` returns the signed value, as 64-bit
-- two's complement, and leaves the pointer behind the last byte.
pub read_sleb128-sleb_value :
    (bs : List ℕ) (mem : Memory) (p : ℕ)
    → Holds mem p bs
    → IsLeb bs
    → length bs ≤ 9
    → read_sleb128 mem p ≡ ok (sleb_value bs, p + length bs)
unfolding read_sleb128 sleb_value
read_sleb128-sleb_value bs mem p m l n =
    let value : 0 + leb_value bs * 1 ≡ leb_value bs = omega arith in
    let scale : 1 * leb_scale bs ≡ leb_scale bs = omega arith in
    sleb_loop-signed_at bs 10 mem p 0 0 m l (omega arith) (omega arith) (omega arith)
    ∙ rw (value, scale) refl
