-- ===== src/Strings/Memory.antt =====
-- Bytes by their addresses: ranges that are read and copied, for c/ystring.c.
use yruntime.Base.{
  ℕ, zero, suc, ◌+◌, ◌≤◌, ◌<◌, ◌≡◌, ◌⊎◌, inl, refl, ap, ◌∙◌, List, [], ◌∷◌, ◌++◌, ◌==◌,
  if◌then◌else◌, length, arith,
}
use mathlib.Core.Path.{ap₂}
use native.Mathlib.Nat.{zero-add, add-zero, suc-add}

abbrev pub Memory : Type 0
Memory = ℕ → ℕ

abbrev pub set_byte : Memory → ℕ → ℕ → Memory
set_byte mem p b x = if x == p then b else mem x

unfoldable pub read_range : Memory → ℕ → ℕ → List ℕ
read_range mem p zero = []
read_range mem p (suc n) = mem p ∷ read_range mem (p + 1) n

-- The write of a `memcpy`.
unfoldable pub write_range : Memory → ℕ → List ℕ → Memory
write_range mem p [] = mem
write_range mem p (b ∷ bs) = write_range (set_byte mem p b) (p + 1) bs

pub read_range-ext :
    (m m' : Memory) (p n : ℕ)
    → ((x : ℕ) → p ≤ x → x < p + n → m x ≡ m' x)
    → read_range m p n ≡ read_range m' p n
unfolding read_range
read_range-ext m m' p zero same = refl
read_range-ext m m' p (suc n) same =
    ap₂ (λ b bs. b ∷ bs) (same p (omega arith) (omega arith))
      (read_range-ext m m' (p + 1) n (λ x low high. same x (omega arith) (omega arith)))

pub read_range-append :
    (m : Memory) (p n k : ℕ) → read_range m p (n + k) ≡ read_range m p n ++ read_range m (p + n) k
unfolding read_range
read_range-append m p zero k = rw (zero-add, add-zero) refl
read_range-append m p (suc n) k =
    let place : p + 1 + n ≡ p + suc n = omega arith in
    rw suc-add (
      ap (λ bs. m p ∷ bs)
        (read_range-append m (p + 1) n k
          ∙ ap (λ q. read_range m (p + 1) n ++ read_range m q k) place))

pub write_range_outside :
    (m : Memory) (p : ℕ) (bs : List ℕ) (x : ℕ)
    → (x < p) ⊎ (p + length bs ≤ x)
    → write_range m p bs x ≡ m x
unfolding write_range
write_range_outside m p [] x out = refl
write_range_outside m p (b ∷ bs) x out =
    ground (arith, write_range_outside (set_byte m p b) (p + 1) bs x)

pub read_range-write_range :
    (m : Memory) (p : ℕ) (bs : List ℕ) → read_range (write_range m p bs) p (length bs) ≡ bs
unfolding read_range write_range
read_range-write_range m p [] = refl
read_range-write_range m p (b ∷ bs) =
    let first : write_range (set_byte m p b) (p + 1) bs p ≡ b =
      write_range_outside (set_byte m p b) (p + 1) bs p (inl (omega arith)) ∙ ground arith in
    ap₂ (λ x xs. x ∷ xs) first (read_range-write_range (set_byte m p b) (p + 1) bs)

pub length-read_range : (m : Memory) (p n : ℕ) → length (read_range m p n) ≡ n
unfolding read_range
length-read_range m p zero = refl
length-read_range m p (suc n) = ap suc (length-read_range m (p + 1) n)
