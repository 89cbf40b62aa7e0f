-- ===== src/Floats/Convert.antt =====
-- c/conv.c: texts to floating point numbers, with the `errno` of the thread.
use yruntime.Base.{
  ℕ, ◌≡◌, refl, List, [], ◌∷◌, ◌++◌, Bool, true, false, not, ◌&&◌, ◌||◌, ◌==◌, All, drop, length,
  c_string,
}
use yruntime.Slices.Code.{Slice}

-- What `strtof` or `strtod` tells of a C string: the number, how many bytes are part of it, and
-- whether it is out of range.
pub record Parsed (Number : Type 0) : Type 0 where
  pub value : Number
  pub bytes : ℕ
  pub out_of_range : Bool

-- `is_erange` tells whether `errno` is `ERANGE`; the functions of the library set it so where the
-- number is out of range, and never set it back.
module _ {Number : Type 0} (strto : List ℕ → Parsed Number) where
  unfoldable pub s8_to_number : Bool → Slice → Number × Bool × Bool
  s8_to_number is_erange arr =
      let parsed = strto (c_string arr.data') in
      let is_erange' = is_erange || parsed.out_of_range in
      (parsed.value, not is_erange' && parsed.bytes == arr.len, is_erange')

-- The types `float` and `double`, with `strtof` and `strtod`.
module _ {Float Double : Type 0} (strtof : List ℕ → Parsed Float)
    (strtod : List ℕ → Parsed Double) where
  abbrev pub s8_to_float : Bool → Slice → Float × Bool × Bool
  s8_to_float = s8_to_number strtof

  abbrev pub s8_to_double : Bool → Slice → Double × Bool × Bool
  s8_to_double = s8_to_number strtod

-- A conversion to the one type or to the other.
pub data Conversion : Type 0 where
  to_float to_double : Slice → Conversion

module _ {Float Double : Type 0} (strtof : List ℕ → Parsed Float)
    (strtod : List ℕ → Parsed Double) where
  -- Whether it succeeds, and `errno` behind it.
  abbrev pub convert : Bool → Conversion → Bool × Bool
  convert is_erange (to_float arr) =
      let (value, succ, is_erange') = s8_to_float strtof strtod is_erange arr in (succ, is_erange')
  convert is_erange (to_double arr) =
      let (value, succ, is_erange') = s8_to_double strtof strtod is_erange arr in (succ, is_erange')

  abbrev pub out_of_range : Conversion → Bool
  out_of_range (to_float arr) = (strtof (c_string arr.data')).out_of_range
  out_of_range (to_double arr) = (strtod (c_string arr.data')).out_of_range

  -- The successes of conversions one behind the other.
  unfoldable pub successes : Bool → List Conversion → List Bool
  successes is_erange [] = []
  successes is_erange (c ∷ cs) =
      let (succ, is_erange') = convert is_erange c in succ ∷ successes is_erange' cs

  successes_erange : (cs : List Conversion) → All (λ succ. succ ≡ false) (successes true cs)
  unfolding successes s8_to_number
  successes_erange [] = tt
  successes_erange (to_float arr ∷ cs) = (refl, successes_erange cs)
  successes_erange (to_double arr ∷ cs) = (refl, successes_erange cs)

  successes_out_of_range :
      (is_erange : Bool) (c : Conversion) (cs : List Conversion)
      → out_of_range c ≡ true
      → All (λ succ. succ ≡ false) (successes is_erange (c ∷ cs))
  unfolding successes s8_to_number
  successes_out_of_range true (to_float arr) cs bad = (refl, successes_erange cs)
  successes_out_of_range true (to_double arr) cs bad = (refl, successes_erange cs)
  successes_out_of_range false (to_float arr) cs bad = rw bad (refl, successes_erange cs)
  successes_out_of_range false (to_double arr) cs bad = rw bad (refl, successes_erange cs)

-- `errno` is not reset: where one conversion, to either type, is out of range, it fails, and so do
-- all conversions behind it, whatever their texts.
pub successes-out_of_range :
    {Float Double : Type 0} (strtof : List ℕ → Parsed Float) (strtod : List ℕ → Parsed Double)
    (is_erange : Bool) (before after : List Conversion) (c : Conversion)
    → out_of_range strtof strtod c ≡ true
    → All
        (λ succ. succ ≡ false)
        (drop (length before) (successes strtof strtod is_erange (before ++ c ∷ after)))
unfolding successes
successes-out_of_range strtof strtod is_erange [] after c bad =
    successes_out_of_range strtof strtod is_erange c after bad
successes-out_of_range strtof strtod is_erange (b ∷ before) after c bad =
    successes-out_of_range strtof strtod (convert strtof strtod is_erange b).1 before after c bad
