-- ===== src/Base/Bits.antt =====
-- Masks and unions of bit fields as arithmetic, for every number.
use Prim.Native.Nat.{
  ℕ, zero, suc, ◌+◌, ◌*◌, ◌/◌, ◌%◌, ◌^◌, ◌≤◌, ◌<◌, min, max, bit_and, bit_or, digits,
  bit_and-bitwise, bit_or-bitwise,
}
use mathlib.Core.Path.{◌≡◌, refl, ap, sym, ◌∙◌}
use mathlib.Core.Bool.{Bool, true, ◌&&◌}
use native.Mathlib.Omega.{arith}
use native.Mathlib.Nat.{pow-suc}

-- What the two operations share: a number is read bit by bit, from the lowest bit up.
module _ (rest : ℕ → ℕ) (op : ℕ → ℕ → ℕ) where
  digits-at_zero : (k y : ℕ) → digits rest op k zero y ≡ rest y
  digits-at_zero zero y = refl
  digits-at_zero (suc k) y = refl

  -- Fuel beyond the number is of no account.
  digits-same_fuel : (x y k l : ℕ) → x ≤ k → x ≤ l → digits rest op k x y ≡ digits rest op l x y
  digits-same_fuel zero y k l low high = digits-at_zero k y ∙ sym (digits-at_zero l y)
  digits-same_fuel (suc x) y zero l low high = absurd (omega arith)
  digits-same_fuel (suc x) y (suc k) zero low high = absurd (omega arith)
  digits-same_fuel (suc x) y (suc k) (suc l) low high =
      ap (λ (d : ℕ). d * 2 + op (suc x % 2) (y % 2))
        (digits-same_fuel (suc x / 2) (y / 2) k l (omega arith) (omega arith))

  -- One bit, where the rest of a number behind the last bit has it too.
  digits-step :
      (x y : ℕ)
      → rest y ≡ rest (y / 2) * 2 + op 0 (y % 2)
      → digits rest op x x y ≡ digits rest op (x / 2) (x / 2) (y / 2) * 2 + op (x % 2) (y % 2)
  digits-step zero y behind = behind
  digits-step (suc x) y behind =
      ap (λ (d : ℕ). d * 2 + op (suc x % 2) (y % 2))
        (digits-same_fuel (suc x / 2) (y / 2) x (suc x / 2) (omega arith) (omega arith))

pub bit_and_step : (a b : ℕ) → bit_and a b ≡ bit_and (a / 2) (b / 2) * 2 + min (a % 2) (b % 2)
bit_and_step a b =
    rw (bit_and-bitwise a b, bit_and-bitwise (a / 2) (b / 2))
      (digits-step (λ y. zero) min a b (omega arith))

pub bit_or_step : (a b : ℕ) → bit_or a b ≡ bit_or (a / 2) (b / 2) * 2 + max (a % 2) (b % 2)
bit_or_step a b =
    rw (bit_or-bitwise a b, bit_or-bitwise (a / 2) (b / 2))
      (digits-step (λ y. y) max a b (omega arith))

no_common_bits : (k x : ℕ) → digits (λ y. zero) min k x 0 ≡ 0
no_common_bits zero x = refl
no_common_bits (suc k) zero = refl
no_common_bits (suc k) (suc x) = omega (arith, no_common_bits k (suc x / 2))

bit_and-zero : (a : ℕ) → bit_and a 0 ≡ 0
bit_and-zero a = bit_and-bitwise a 0 ∙ no_common_bits a a

no_further_bits : (k x : ℕ) → x ≤ k → digits (λ y. y) max k x 0 ≡ x
no_further_bits zero x low = omega arith
no_further_bits (suc k) zero low = refl
no_further_bits (suc k) (suc x) low = omega (arith, no_further_bits k (suc x / 2) (omega arith))

pub bit_or-zero : (a : ℕ) → bit_or a 0 ≡ a
bit_or-zero a = bit_or-bitwise a 0 ∙ no_further_bits a a (omega arith)

pub zero-bit_or : (b : ℕ) → bit_or 0 b ≡ b
zero-bit_or b = bit_or-bitwise 0 b

-- A mask of k ones takes k steps.
bit_and-one : (a : ℕ) → bit_and a 1 ≡ a % 2
bit_and-one a = omega (arith, bit_and_step a 1, bit_and-zero (a / 2))

bit_and_3 : (a : ℕ) → bit_and a 3 ≡ a % 4
bit_and_3 a = omega (arith, bit_and_step a 3, bit_and-one (a / 2))

pub bit_and_7 : (a : ℕ) → bit_and a 7 ≡ a % 8
bit_and_7 a = omega (arith, bit_and_step a 7, bit_and_3 (a / 2))

pub bit_and_15 : (a : ℕ) → bit_and a 15 ≡ a % 16
bit_and_15 a = omega (arith, bit_and_step a 15, bit_and_7 (a / 2))

pub bit_and_31 : (a : ℕ) → bit_and a 31 ≡ a % 32
bit_and_31 a = omega (arith, bit_and_step a 31, bit_and_15 (a / 2))

pub bit_and_63 : (a : ℕ) → bit_and a 63 ≡ a % 64
bit_and_63 a = omega (arith, bit_and_step a 63, bit_and_31 (a / 2))

pub bit_and_127 : (a : ℕ) → bit_and a 127 ≡ a % 128
bit_and_127 a = omega (arith, bit_and_step a 127, bit_and_63 (a / 2))

-- A single bit, from the lowest up.
bit_and_bit_2 : (a : ℕ) → bit_and a 2 ≡ a / 2 % 2 * 2
bit_and_bit_2 a = omega (arith, bit_and_step a 2, bit_and-one (a / 2))

bit_and_bit_4 : (a : ℕ) → bit_and a 4 ≡ a / 4 % 2 * 4
bit_and_bit_4 a = omega (arith, bit_and_step a 4, bit_and_bit_2 (a / 2))

pub bit_and_bit_8 : (a : ℕ) → bit_and a 8 ≡ a / 8 % 2 * 8
bit_and_bit_8 a = omega (arith, bit_and_step a 8, bit_and_bit_4 (a / 2))

bit_and_bit_16 : (a : ℕ) → bit_and a 16 ≡ a / 16 % 2 * 16
bit_and_bit_16 a = omega (arith, bit_and_step a 16, bit_and_bit_8 (a / 2))

bit_and_bit_32 : (a : ℕ) → bit_and a 32 ≡ a / 32 % 2 * 32
bit_and_bit_32 a = omega (arith, bit_and_step a 32, bit_and_bit_16 (a / 2))

pub bit_and_bit_64 : (a : ℕ) → bit_and a 64 ≡ a / 64 % 2 * 64
bit_and_bit_64 a = omega (arith, bit_and_step a 64, bit_and_bit_32 (a / 2))

pub bit_and_bit_128 : (a : ℕ) → bit_and a 128 ≡ a / 128 % 2 * 128
bit_and_bit_128 a = omega (arith, bit_and_step a 128, bit_and_bit_64 (a / 2))

half-shift : (k a : ℕ) → a * 2 ^ suc k / 2 ≡ a * 2 ^ k
half-shift k a = omega (arith, ap (λ (t : ℕ). a * t) (pow-suc 2 k))

-- Two fields that do not overlap add up.
pub bit_or_high : (k a b : ℕ) → b < 2 ^ k → bit_or (a * 2 ^ k) b ≡ a * 2 ^ k + b
bit_or_high zero a b h =
    let e : b ≡ 0 = omega arith in rw e (omega (arith, bit_or-zero (a * 2 ^ 0)))
bit_or_high (suc k) a b h = omega (
  arith,
  rw (half-shift k a) at (bit_or_step (a * 2 ^ suc k) b),
  bit_or_high k a (b / 2) (omega (arith, pow-suc 2 k)),
  ap (λ (t : ℕ). a * t) (pow-suc 2 k),
)

pub bit_or_low : (k a b : ℕ) → b < 2 ^ k → bit_or b (a * 2 ^ k) ≡ a * 2 ^ k + b
bit_or_low zero a b h = let e : b ≡ 0 = omega arith in rw e (omega (arith, zero-bit_or (a * 2 ^ 0)))
bit_or_low (suc k) a b h = omega (
  arith,
  rw (half-shift k a) at (bit_or_step b (a * 2 ^ suc k)),
  bit_or_low k a (b / 2) (omega (arith, pow-suc 2 k)),
  ap (λ (t : ℕ). a * t) (pow-suc 2 k),
)

-- A range of values, checked by evaluation.
unfoldable pub all_below : (ℕ → Bool) → ℕ → Bool
all_below test zero = true
all_below test (suc count) = all_below test count && test count

pub all_below_lem :
    (test : ℕ → Bool) (count k : ℕ) → k < count → all_below test count ≡ true → test k ≡ true
unfolding all_below
all_below_lem test zero k below holds = absurd (omega arith)
all_below_lem test (suc count) k below holds = ground (arith, all_below_lem test count k)
