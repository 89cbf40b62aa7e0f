-- ===== src/Utf/Arrays.antt =====
-- c/print.c: the array conversions, with the bounds of the buffer that they fill.
use yruntime.Base.{
  ℕ, ◌^◌, zero, suc, ◌+◌, ◌-◌, ◌≤◌, ◌<◌, ◌≡◌, refl, ap, sym, ◌∙◌, true, List, [], ◌∷◌, ◌++◌, some,
  length, length-append, set-append, drop, replicate, set, take-append_length, drop-replicate,
  length-replicate, drop-append_length, append_assoc, All, arith, ltb, lt→ltb, ◌>>=◌,
}
use yruntime.Utf.Code.{
  to_utf8, to_utf32, utf8_length, write_bytes, fill_utf8, to_utf8_array, utf32_loop, to_utf32_array,
}
use yruntime.Utf.RoundTrip.{to_utf32-to_utf8, length-to_utf8}

-- The text of a list of code points, one character behind the other.
abbrev pub encode : List ℕ → List ℕ
encode [] = []
encode (c ∷ cs) = to_utf8 c ++ encode cs

abbrev pub IsCodePoint : ℕ → Type 0
IsCodePoint c = c ≤ 0x10FFFF

length-encode : (cs : List ℕ) → length (encode cs) ≡ utf8_length cs
unfolding utf8_length
length-encode [] = refl
length-encode (c ∷ cs) = omega (arith, length-append (to_utf8 c) (encode cs), length-encode cs)

-- A write of bytes that fit behind `front`.
pub write_bytes-append :
    (bs front back : List ℕ)
    → length bs ≤ length back
    → write_bytes (front ++ back) (length front) bs ≡ some (front ++ (bs ++ drop (length bs) back))
unfolding write_bytes
write_bytes-append [] front back h = refl
write_bytes-append (b ∷ bs) front [] h = absurd (omega arith)
write_bytes-append (b ∷ bs) front (x ∷ back) h =
    let inside : ltb (length front) (length (front ++ x ∷ back)) ≡ true =
      lt→ltb _ _ (omega (arith, length-append front (x ∷ back))) in
    let regroup : set (front ++ x ∷ back) (length front) b ≡ (front ++ b ∷ []) ++ back =
      set-append front back x b ∙ sym (append_assoc front (b ∷ []) back) in
    let moved : length front + 1 ≡ length (front ++ b ∷ []) =
      omega (arith, length-append front (b ∷ [])) in
    rw (inside, regroup, moved)
      (write_bytes-append bs (front ++ b ∷ []) back (omega arith)
        ∙ ap some (append_assoc front (b ∷ []) (bs ++ drop (length bs) back)))

-- A character with its NUL, into what is left of the zeroed buffer.
write_char :
    (bs front : List ℕ) (n : ℕ)
    → write_bytes (front ++ replicate (length bs + n + 1) 0) (length front) (bs ++ 0 ∷ [])
      ≡ some ((front ++ bs) ++ replicate (n + 1) 0)
write_char bs front n =
    let size : length bs + n + 1 ≡ length (bs ++ 0 ∷ []) + n =
      omega (arith, length-append bs (0 ∷ [])) in
    let next : n + 1 ≡ suc n = omega arith in
    rw size (
      write_bytes-append (bs ++ 0 ∷ []) front (replicate (length (bs ++ 0 ∷ []) + n) 0)
        (omega (arith, length-replicate (length (bs ++ 0 ∷ []) + n) (zero)))
      ∙ rw (drop-replicate, next, append_assoc, append_assoc) refl)

fill_utf8-encode :
    (cs front : List ℕ)
    → length front + utf8_length cs < 2 ^ 31
    → fill_utf8 cs (front ++ replicate (utf8_length cs + 1) 0) (length front)
      ≡ some (front ++ (encode cs ++ 0 ∷ []))
unfolding fill_utf8 utf8_length
fill_utf8-encode [] front short = refl
fill_utf8-encode (c ∷ cs) front short =
    let size = length-append front (to_utf8 c) in
    let in_range : ltb (length (front ++ to_utf8 c)) (2 ^ 31) ≡ true = lt→ltb _ _ (omega arith) in
    rw (write_char (to_utf8 c) front (utf8_length cs), ← size, in_range)
      (fill_utf8-encode cs (front ++ to_utf8 c) (omega arith) ∙ simp append_assoc)

-- `_yrt_to_utf8_array` writes nothing past its buffer of one byte more than the counted length,
-- and the array holds the encodings of the code points, one behind the other, if these are fewer
-- than 2^31 bytes.
pub to_utf8_array-encode :
    (codes : List ℕ) → utf8_length codes < 2 ^ 31 → to_utf8_array codes ≡ some (encode codes)
unfolding to_utf8_array
to_utf8_array-encode codes short =
    rw (fill_utf8-encode codes [] (omega arith), ← length-encode codes)
      (ap some (take-append_length (encode codes) (0 ∷ [])))

length-utf8_length : (cs : List ℕ) → length cs ≤ utf8_length cs
unfolding utf8_length
length-utf8_length [] = omega arith
length-utf8_length (c ∷ cs) = omega (arith, length-utf8_length cs, length-to_utf8 c)

-- One round of the decoding loop on a character that is whole.
utf32_loop_step :
    (fuel c nb left : ℕ) (text : List ℕ)
    → to_utf32 text ≡ some (c, nb)
    → 0 < left
    → utf32_loop (suc fuel) text left
      ≡ (utf32_loop fuel (drop nb text) (left - nb) >>= λ codes. some (c ∷ codes))
unfolding utf32_loop
utf32_loop_step fuel c nb zero text e h = absurd (omega arith)
utf32_loop_step fuel c nb (suc left) text e h = rw e refl

utf32_loop-encode :
    (cs rest : List ℕ) (fuel : ℕ)
    → All IsCodePoint cs
    → length (encode cs) < fuel
    → utf32_loop fuel (encode cs ++ rest) (length (encode cs)) ≡ some cs
utf32_loop-encode cs rest zero h k = absurd (omega arith)
utf32_loop-encode [] rest (suc fuel) h k = unfold utf32_loop in refl
utf32_loop-encode (c ∷ cs) rest (suc fuel) (hc, h) k =
    let text = to_utf8 c ++ encode cs in
    let size : length text ≡ length (to_utf8 c) + length (encode cs) =
      length-append (to_utf8 c) (encode cs) in
    let left : length text - length (to_utf8 c) ≡ length (encode cs) = omega arith in
    let whole : to_utf32 (text ++ rest) ≡ some (c, length (to_utf8 c)) =
      rw append_assoc (to_utf32-to_utf8 c (encode cs ++ rest) hc) in
    let behind : drop (length (to_utf8 c)) (text ++ rest) ≡ encode cs ++ rest =
      rw append_assoc (drop-append_length (to_utf8 c) (encode cs ++ rest)) in
    utf32_loop_step fuel c (length (to_utf8 c)) (length text) (text ++ rest) whole
      (omega (arith, length-to_utf8 c))
    ∙ rw (left, behind, utf32_loop-encode cs rest fuel h (omega (arith, length-to_utf8 c))) refl

-- For code points up to 0x10FFFF whose text has fewer than 2^31 bytes, so that no `int` overflows:
-- `_yrt_to_utf32_array` on what `_yrt_to_utf8_array` wrote, whatever stands behind it in memory,
-- gives the code points back.
pub to_utf32_array-to_utf8_array :
    (codes rest : List ℕ)
    → All IsCodePoint codes
    → utf8_length codes < 2 ^ 31
    → (to_utf8_array codes >>= λ bytes. to_utf32_array (bytes ++ rest) (length bytes)) ≡ some codes
unfolding to_utf32_array
to_utf32_array-to_utf8_array codes rest h short =
    let in_range : ltb (length codes) (2 ^ 31) ≡ true =
      lt→ltb _ _ (omega (arith, length-utf8_length codes)) in
    rw
      (
        to_utf8_array-encode codes short,
        utf32_loop-encode codes rest (length (encode codes) + 1) h (omega arith),
        in_range,
      )
      refl
