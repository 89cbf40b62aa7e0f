-- ===== src/Mangle/Decimal.antt =====
-- c/ystring.c, `str_from_int` on numbers that are not negative, and c/demangle.c,
-- `_yrt_demangle_number`, which reads such digits back.
use yruntime.Base.{
  ℕ, zero, suc, ◌+◌, ◌-◌, ◌*◌, ◌/◌, ◌%◌, ◌^◌, ◌<◌, ◌≡◌, refl, ap, ◌∙◌, List, [], ◌∷◌, ◌++◌,
  append_assoc, Option, none, some, Bool, false, ◌&&◌, ltb, leb, if◌then◌else◌, arith, Bool-cases,
  inl, inr,
}

-- `%d`, with fuel; the number itself is enough.
unfoldable pub decimal_fuel : ℕ → ℕ → List ℕ
decimal_fuel zero n = []
decimal_fuel (suc fuel) n =
    let rest = decimal_fuel fuel (n / 10) in
    if ltb n 10 then (b'0' + n) ∷ [] else rest ++ (b'0' + n % 10) ∷ []

unfoldable pub str_from_int : ℕ → List ℕ
unfolding decimal_fuel
str_from_int n = decimal_fuel (suc n) n

abbrev pub is_digit : ℕ → Bool
is_digit c = leb b'0' c && leb c b'9'

-- The number and the text behind its digits. `none` is a read past the end of the text, or a
-- number that overflows an `int`.
unfoldable pub demangle_number : List ℕ → ℕ → Option (ℕ × List ℕ)
demangle_number [] nb = none
demangle_number (c ∷ rest) nb =
    let next = demangle_number rest (nb * 10 + (c - b'0')) in
    if is_digit c
    then (if ltb (nb * 10 + (c - b'0')) (2 ^ 31) then next else none)
    else some (nb, c ∷ rest)

demangle_number_digit :
    (d : ℕ) (rest : List ℕ) (nb : ℕ)
    → d < 10
    → nb * 10 + d < 2 ^ 31
    → demangle_number ((b'0' + d) ∷ rest) nb ≡ demangle_number rest (nb * 10 + d)
unfolding demangle_number
demangle_number_digit d rest nb h k =
    let value : b'0' + d - b'0' ≡ d = omega arith in rw value (ground arith)

demangle_number-decimal_fuel :
    (fuel n : ℕ) (rest : List ℕ)
    → n < fuel
    → n < 2 ^ 31
    → demangle_number (decimal_fuel fuel n ++ rest) 0 ≡ demangle_number rest n
unfolding decimal_fuel
demangle_number-decimal_fuel zero n rest h k = absurd (omega arith)
demangle_number-decimal_fuel (suc fuel) n rest h k = elim (Bool-cases (ltb n 10)) [
  | inl small ↦ rw small (
      demangle_number_digit n rest 0 (ground arith) (omega arith)
      ∙ ap (demangle_number rest) (omega arith))
  | inr large ↦
      rw (large, append_assoc)
        (demangle_number-decimal_fuel fuel (n / 10) ((b'0' + n % 10) ∷ rest) (ground arith)
            (omega arith)
          ∙ demangle_number_digit (n % 10) rest (n / 10) (omega arith) (omega arith)
          ∙ ap (demangle_number rest) (omega arith))
]

-- `_yrt_demangle_number` reads back the digits that `str_from_int` wrote, of a number that fits an
-- `int`, where something that is no digit follows them.
pub demangle_number-str_from_int :
    (n c : ℕ) (rest : List ℕ)
    → n < 2 ^ 31
    → is_digit c ≡ false
    → demangle_number (str_from_int n ++ c ∷ rest) 0 ≡ some (n, c ∷ rest)
unfolding str_from_int
demangle_number-str_from_int n c rest h k =
    demangle_number-decimal_fuel (suc n) n (c ∷ rest) (omega arith) h
    ∙ unfold demangle_number in rw k refl
