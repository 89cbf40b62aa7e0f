-- ===== src/Mangle/Fuel.antt =====
-- c/demangle.c: the loop of `_yrt_demangle_symbol` ends.
use yruntime.Base.{
  ℕ, sym, zero, suc, ◌+◌, ◌-◌, ◌*◌, ◌^◌, ◌<◌, ◌≡◌, ◌⊎◌, inl, inr, refl, ap, ◌∙◌, List, [], ◌∷◌,
  ◌++◌, Option, none, some, Bool, false, ltb, leb, ◌==◌, if◌then◌else◌, length, length-drop, take,
  drop, ◌>>◌, guard, arith, Bool-cases, Option-cases, bind-some,
}
use yruntime.Mangle.Decimal.{is_digit, demangle_number}
use yruntime.Mangle.Demangle.{two_colons, demangle_loop}

-- `_yrt_demangle_number` takes a digit, or leaves the number and the text as they are.
demangle_number-shorter :
    (rest : List ℕ) (nb n : ℕ) (behind : List ℕ)
    → demangle_number rest nb ≡ some (n, behind)
    → ((n ≡ nb) × (behind ≡ rest)) ⊎ (length behind < length rest)
unfolding demangle_number
demangle_number-shorter [] nb n behind run = cc
demangle_number-shorter (c ∷ rest) nb n behind run = elim (Bool-cases (is_digit c)) [
  | inl digit ↦ elim (Bool-cases (ltb (nb * 10 + (c - b'0')) (2 ^ 31))) [
    | inl fits ↦
        let run' : demangle_number rest (nb * 10 + (c - b'0')) ≡ some (n, behind) =
          rw (digit, fits) at run in
        inr (elim (demangle_number-shorter rest (nb * 10 + (c - b'0')) n behind run') [
          | inl (value, same) ↦ omega (arith, ap length same)
          | inr shorter ↦ omega arith
        ])
    | inr large ↦ (let run' : none ≡ some (n, behind) = rw (digit, large) at run in cc)
  ]
  | inr other ↦ let run' : some (nb, c ∷ rest) ≡ some (n, behind) = rw other at run in inl (cc, cc)
]

-- The round of the loop behind a number that is read.
after_number : ℕ → ℕ → List ℕ → Bool → List ℕ → Option (List ℕ × List ℕ)
after_number fuel nb next first ret =
    let more =
      demangle_loop fuel (drop nb next) false
        ((if first then ret else ret ++ two_colons) ++ take nb next) in
    if nb == 0 then some (ret, next) else (guard (leb nb (length next)) >> more)

demangle_loop-number :
    (fuel : ℕ) (rest : List ℕ) (first : Bool) (ret : List ℕ) (nb : ℕ) (next : List ℕ)
    → demangle_number rest 0 ≡ some (nb, next)
    → demangle_loop (suc fuel) rest first ret ≡ after_number fuel nb next first ret
unfolding demangle_loop after_number
demangle_loop-number fuel rest first ret nb next read = bind-some (demangle_number rest 0) _ read

-- On fuel for more than the bytes that are left, one more changes nothing: the loop of
-- `_yrt_demangle_symbol` ends by itself.
demangle_loop-fuel :
    (fuel : ℕ) (rest : List ℕ) (first : Bool) (ret : List ℕ)
    → length rest < fuel
    → demangle_loop (suc fuel) rest first ret ≡ demangle_loop fuel rest first ret
unfolding demangle_loop after_number
demangle_loop-fuel zero rest first ret enough = absurd (omega arith)
demangle_loop-fuel (suc fuel) rest first ret enough = elim (Option-cases (demangle_number rest 0)) [
  | inl stuck ↦ rw stuck refl
  | inr ((nb, next), read) ↦
      demangle_loop-number (suc fuel) rest first ret nb next read
      ∙ elim (Bool-cases (nb == 0)) [
        | inl last ↦ rw last refl
        | inr more ↦
            let less : length next < length rest =
              elim (demangle_number-shorter rest 0 nb next read) [
                | inl (nothing, same) ↦ absurd (ground arith)
                | inr shorter ↦ shorter
              ] in
            let shorter : length (drop nb next) < fuel = omega (arith, length-drop nb next) in
            rw
              (demangle_loop-fuel fuel (drop nb next) false
                ((if first then ret else ret ++ two_colons) ++ take nb next) shorter)
              refl
      ]
      ∙ sym (demangle_loop-number fuel rest first ret nb next read)
]
