-- ===== src/Mangle/Demangle.antt =====
-- c/demangle.c: `_yrt_demangle_symbol`.
use yruntime.Base.{
  ℕ, ◌+◌, ◌-◌, ◌^◌, ltb, zero, suc, List, [], ◌∷◌, ◌++◌, Option, none, some, Bool, true, false, leb,
  ◌==◌, if◌then◌else◌, length, take, drop, get_elem?, ◌>>=◌, ◌>>◌, guard, ◌||◌, not,
}
use yruntime.Mangle.Decimal.{demangle_number}

abbrev pub two_colons : List ℕ
two_colons = b':' ∷ b':' ∷ []

-- " (...)"
abbrev pub call_mark : List ℕ
call_mark = b' ' ∷ b'(' ∷ b'.' ∷ b'.' ∷ b'.' ∷ b')' ∷ []

-- The loop over the segments, from `data + current` on, and the text that it leaves. `none` is a
-- read past the end of the text. Each round takes a digit at least. `current` only grows, so that
-- it overflows just where its last value is no `int`, which `is_int_end` tells.
unfoldable pub demangle_loop : ℕ → List ℕ → Bool → List ℕ → Option (List ℕ × List ℕ)
demangle_loop zero rest first ret = none
demangle_loop (suc fuel) rest first ret = do
  (nb, rest) ← demangle_number rest 0
  let ret' = if first then ret else ret ++ two_colons
  let more = demangle_loop fuel (drop nb rest) false (ret' ++ take nb rest)
  if nb == 0 then some (ret, rest) else (guard (leb nb (length rest)) >> more)

-- Whether the last value of `current` is an `int`, from what stands behind the first two bytes and
-- what the loop leaves of it.
abbrev pub is_int_end : List ℕ → List ℕ → Bool
is_int_end rest left = ltb (2 + (length rest - length left)) (2 ^ 31)

-- What follows the loop, on the text at `data + current`.
unfoldable pub add_call_mark : List ℕ → List ℕ → Option (List ℕ)
add_call_mark ret rest = do c ← get_elem? rest 0; some (if c == b'F' then ret ++ call_mark else ret)

-- The list holds what can be read from `data` on, and `len` is the length that the caller gives.
-- `none` is also the overflow of `current`.
unfoldable pub demangle_symbol : List ℕ → ℕ → Option (List ℕ)
demangle_symbol (b0 ∷ b1 ∷ rest) len =
    if leb len 2 || not (b0 == b'_') || not (b1 == b'Y')
    then some (take len (b0 ∷ b1 ∷ rest))
    else (do
      (ret, left) ← demangle_loop (suc (length rest)) rest true []
      guard (is_int_end rest left) >> add_call_mark ret left)
demangle_symbol data' len = if leb len 2 then some (take len data') else none
