-- ===== src/Floats/Runs.antt =====
-- c/print.c and c/conv.c: numbers that are their own texts, in the digits 0 and 1.
use yruntime.Base.{ℕ, ◌≡◌, refl, List, [], ◌∷◌, false, ltb, All, drop, replicate, length, c_string}
use yruntime.Slices.Code.{Slice}
use yruntime.Floats.Convert.{Parsed, to_float, to_double, successes, successes-out_of_range}

-- A reader of texts of three digits at most.
abbrev read_digits : List ℕ → Parsed (List ℕ)
read_digits text = record { value = text; bytes = length text; out_of_range = ltb 3 (length text) }

abbrev ones : ℕ → Slice
ones n = record { len = n; data' = replicate n b'1' }

successes-out_of_range_example :
    All
      (λ succ. succ ≡ false)
      (drop 1 (
        successes read_digits read_digits false
          (to_float (ones 2) ∷ to_double (ones 4) ∷ to_float (ones 2) ∷ [])))
unfolding c_string
successes-out_of_range_example =
    successes-out_of_range read_digits read_digits false (to_float (ones 2) ∷ [])
      (to_float (ones 2) ∷ []) (to_double (ones 4)) refl
