-- ===== src/Mangle/RoundTrip.antt =====
-- c/demangle.c: a module path through `_yrt_mangle_path` and `_yrt_demangle_symbol`.
use yruntime.Base.{
  ℕ, lt→ltb, ◌>>=◌, zero, suc, ◌+◌, ◌^◌, ◌≤◌, ◌<◌, ◌≡◌, ◌≢◌, refl, sym, ap, ◌∙◌, List, [], ◌∷◌,
  ◌++◌, append_assoc, append-nil, some, Bool, true, false, leb, le→leb, ◌==◌, length, length-append,
  take-append_length, drop-append_length, All, arith, if◌then◌else◌,
}
use yruntime.Mangle.Decimal.{str_from_int, is_digit, demangle_number, demangle_number-str_from_int}
use yruntime.Mangle.Demangle.{
  is_int_end, two_colons, call_mark, demangle_loop, add_call_mark, demangle_symbol,
}
use yruntime.Mangle.Paths.{flush, mangle_loop, mangle_path, mangle_path-short}

-- A segment of a path: it is not empty, does not begin with a digit, has no colon and no NUL, and
-- its length fits an `int`.
abbrev IsLetter : ℕ → Type 0
IsLetter c = (c ≢ b':') × (c ≢ 0)

abbrev pub IsSegment : List ℕ → Type 0
IsSegment [] = ⊥
IsSegment (c ∷ cs) =
    (is_digit c ≡ false) × (length (c ∷ cs) < 2 ^ 31) × All (λ x. (x ≢ b':') × (x ≢ 0)) (c ∷ cs)

-- A path as it is written in the source, a segment and those that follow.
unfoldable pub path_of : List ℕ → List (List ℕ) → List ℕ
path_of s [] = s
path_of s (t ∷ ts) = s ++ (two_colons ++ path_of t ts)

-- The segments with their lengths in front.
unfoldable pub mangled : List (List ℕ) → List ℕ
mangled [] = []
mangled (s ∷ ss) = str_from_int (length s) ++ (s ++ mangled ss)

mangle_step :
    (bytes : List ℕ) (c : ℕ) (rest : List ℕ) (current start : ℕ) (str : List ℕ)
    → IsLetter c
    → mangle_loop bytes (c ∷ rest) current start str
      ≡ mangle_loop bytes rest (current + 1) start str
unfolding mangle_loop
mangle_step bytes c [] current start str (colon, nul) =
    let no_colon : (c == b':') ≡ false = ground arith in
    let no_nul : (c == 0) ≡ false = ground arith in rw (no_colon, no_nul, mangle_loop) refl
mangle_step bytes c (d ∷ rest) current start str (colon, nul) =
    let no_colon : (c == b':') ≡ false = ground arith in
    let no_nul : (c == 0) ≡ false = ground arith in rw (no_colon, no_nul, mangle_loop) refl

mangle_segment :
    (bytes s rest : List ℕ) (current start : ℕ) (str : List ℕ)
    → All IsLetter s
    → mangle_loop bytes (s ++ rest) current start str
      ≡ mangle_loop bytes rest (current + length s) start str
mangle_segment bytes [] rest current start str h =
    ap (λ k. mangle_loop bytes rest k start str) (omega arith)
mangle_segment bytes (c ∷ s) rest current start str (h, hs) =
    mangle_step bytes c (s ++ rest) current start str h
    ∙ mangle_segment bytes s rest (current + 1) start str hs
    ∙ ap (λ k. mangle_loop bytes rest k start str) (omega arith)

flush_segment :
    (bytes front s back str : List ℕ)
    → bytes ≡ front ++ (s ++ back)
    → flush bytes (length s) (length front) str ≡ str ++ (str_from_int (length s) ++ s)
flush_segment bytes front s back str e =
    rw (e, drop-append_length front (s ++ back), take-append_length s back) refl

letters : (s : List ℕ) → IsSegment s → All IsLetter s
letters [] h = absurd h
letters (c ∷ cs) (_, _, h) = h

nonempty : (s : List ℕ) → IsSegment s → 0 < length s
nonempty [] h = absurd h
nonempty (c ∷ cs) h = omega arith

nonzero : (n : ℕ) → 0 < n → (n == 0) ≡ false
nonzero n h = ground arith

mangle_colons :
    (bytes rest : List ℕ) (current start : ℕ) (str : List ℕ)
    → mangle_loop bytes (two_colons ++ rest) current start str
      ≡ mangle_loop bytes rest 0 (start + current + 2) (flush bytes current start str)
unfolding mangle_loop
mangle_colons bytes rest current start str = refl

mangle_last :
    (bytes : List ℕ) (n start : ℕ) (str : List ℕ)
    → 0 < n
    → mangle_loop bytes [] n start str ≡ flush bytes n start str
unfolding mangle_loop
mangle_last bytes n start str h =
    let some_left : (n == 0) ≡ false = ground arith in rw some_left refl

mangle_loop-mangled :
    (ts : List (List ℕ)) (s front bytes str : List ℕ)
    → IsSegment s
    → All IsSegment ts
    → bytes ≡ front ++ path_of s ts
    → mangle_loop bytes (path_of s ts) 0 (length front) str ≡ str ++ mangled (s ∷ ts)
unfolding path_of mangled
mangle_loop-mangled [] s front bytes str h hs e =
    let whole : bytes ≡ front ++ (s ++ []) = rw append-nil e in
    let counted : 0 + length s ≡ length s = omega arith in
    let text : s ≡ s ++ [] = sym (append-nil s) in
    ap (λ t. mangle_loop bytes t 0 (length front) str) text
    ∙ mangle_segment bytes s [] 0 (length front) str (letters s h)
    ∙ ap (λ k. mangle_loop bytes [] k (length front) str) counted
    ∙ mangle_last bytes (length s) (length front) str (nonempty s h)
    ∙ flush_segment bytes front s [] str whole
    ∙ ap (λ t. str ++ (str_from_int (length s) ++ t)) text
mangle_loop-mangled (t ∷ ts) s front bytes str h (ht, hs) e =
    let rest = path_of t ts in
    let front' = front ++ (s ++ two_colons) in
    let counted : 0 + length s ≡ length s = omega arith in
    let start : length front + length s + 2 ≡ length front' =
      omega (arith, length-append front (s ++ two_colons), length-append s two_colons) in
    let whole : bytes ≡ front' ++ rest = e ∙ simp append_assoc in
    mangle_segment bytes s (two_colons ++ rest) 0 (length front) str (letters s h)
    ∙ ap (λ k. mangle_loop bytes (two_colons ++ rest) k (length front) str) counted
    ∙ mangle_colons bytes rest (length s) (length front) str
    ∙ rw (flush_segment bytes front s (two_colons ++ rest) str e, start)
        (mangle_loop-mangled ts t front' bytes _ ht hs whole ∙ simp append_assoc)

pub mangle_path-mangled :
    (s : List ℕ) (ts : List (List ℕ))
    → IsSegment s
    → All IsSegment ts
    → length (path_of s ts) + 1 < 2 ^ 31
    → mangle_path (path_of s ts) ≡ some (mangled (s ∷ ts))
mangle_path-mangled s ts h hs short =
    mangle_path-short (path_of s ts) short
    ∙ ap some (mangle_loop-mangled ts s [] (path_of s ts) [] h hs refl)

-- What the demangling loop adds for the segments.
render : List ℕ → List (List ℕ) → List ℕ
render ret [] = ret
render ret (s ∷ ss) = render (ret ++ (two_colons ++ s)) ss

render-path_of : (ret s : List ℕ) (ts : List (List ℕ)) → render (ret ++ s) ts ≡ ret ++ path_of s ts
unfolding render path_of
render-path_of ret s [] = refl
render-path_of ret s (t ∷ ts) =
    ap (λ r. render r ts) (simp append_assoc)
    ∙ render-path_of (ret ++ (s ++ two_colons)) t ts
    ∙ simp append_assoc

-- The number in front of a segment, where the segment follows it.
number_of :
    (s rest : List ℕ)
    → IsSegment s
    → demangle_number (str_from_int (length s) ++ (s ++ rest)) 0 ≡ some (length s, s ++ rest)
number_of [] rest h = absurd h
number_of (c ∷ s) rest (digit, small, _) =
    demangle_number-str_from_int (length (c ∷ s)) c (s ++ rest) small digit

demangle_round :
    (fuel : ℕ) (s rest : List ℕ) (first : Bool) (ret : List ℕ)
    → IsSegment s
    → demangle_loop (suc fuel) (str_from_int (length s) ++ (s ++ rest)) first ret
      ≡ demangle_loop fuel rest false ((if first then ret else ret ++ two_colons) ++ s)
unfolding demangle_loop
demangle_round fuel s rest first ret h =
    let some_left : (length s == 0) ≡ false = nonzero (length s) (nonempty s h) in
    let inside : leb (length s) (length (s ++ rest)) ≡ true =
      le→leb _ _ (omega (arith, length-append s rest)) in
    rw (number_of s rest h, some_left, inside, drop-append_length s rest, take-append_length s rest)
      refl

demangle_end :
    (fuel c : ℕ) (rest : List ℕ) (first : Bool) (ret : List ℕ)
    → is_digit c ≡ false
    → demangle_loop (suc fuel) (c ∷ rest) first ret ≡ some (ret, c ∷ rest)
unfolding demangle_loop demangle_number
demangle_end fuel c rest first ret h = rw h refl

demangle_loop-render :
    (ss : List (List ℕ)) (fuel c : ℕ) (rest ret : List ℕ)
    → All IsSegment ss
    → is_digit c ≡ false
    → length ss < fuel
    → demangle_loop fuel (mangled ss ++ c ∷ rest) false ret ≡ some (render ret ss, c ∷ rest)
unfolding mangled render
demangle_loop-render ss zero c rest ret h d k = absurd (omega arith)
demangle_loop-render [] (suc fuel) c rest ret h d k = demangle_end fuel c rest false ret d
demangle_loop-render (s ∷ ss) (suc fuel) c rest ret (h, hs) d k =
    rw (append_assoc, append_assoc)
      (demangle_round fuel s (mangled ss ++ c ∷ rest) false ret h
        ∙ ap (demangle_loop fuel (mangled ss ++ c ∷ rest) false) (append_assoc ret two_colons s)
        ∙ demangle_loop-render ss fuel c rest (ret ++ (two_colons ++ s)) hs d (omega arith))

length-mangled : (ss : List (List ℕ)) → All IsSegment ss → length ss ≤ length (mangled ss)
unfolding mangled
length-mangled [] h = omega arith
length-mangled (s ∷ ss) (h, hs) = omega (
  arith,
  length-append (str_from_int (length s)) (s ++ mangled ss),
  length-append s (mangled ss),
  nonempty s h,
  length-mangled ss hs,
)

demangle_loop-path_of :
    (fuel : ℕ) (s : List ℕ) (ts : List (List ℕ)) (rest : List ℕ)
    → IsSegment s
    → All IsSegment ts
    → length ts < fuel
    → demangle_loop (suc fuel) (mangled (s ∷ ts) ++ b'F' ∷ rest) true []
      ≡ some (path_of s ts, b'F' ∷ rest)
unfolding mangled
demangle_loop-path_of fuel s ts rest h hs k =
    rw (append_assoc, append_assoc)
      (demangle_round fuel s (mangled ts ++ b'F' ∷ rest) true [] h
        ∙ demangle_loop-render ts fuel b'F' rest s hs refl k
        ∙ ap (λ r. some (r, b'F' ∷ rest)) (render-path_of [] s ts))

-- The symbol of the mangled segments.
pub demangle_symbol-mangled :
    (s : List ℕ) (ts : List (List ℕ)) (rest : List ℕ) (len : ℕ)
    → IsSegment s
    → All IsSegment ts
    → 2 + length (mangled (s ∷ ts)) < 2 ^ 31
    → 2 < len
    → demangle_symbol (b'_' ∷ b'Y' ∷ (mangled (s ∷ ts) ++ b'F' ∷ rest)) len
      ≡ some (path_of s ts ++ call_mark)
unfolding demangle_symbol
demangle_symbol-mangled s ts rest len h hs short k =
    let text = mangled (s ∷ ts) ++ b'F' ∷ rest in
    let long : leb len 2 ≡ false = ground arith in
    let size = length-append (mangled (s ∷ ts)) (b'F' ∷ rest) in
    let loop : demangle_loop (suc (length text)) text true [] ≡ some (path_of s ts, b'F' ∷ rest) =
      demangle_loop-path_of (length text) s ts rest h hs
        (omega (arith, size, length-mangled (s ∷ ts) (h, hs))) in
    let in_range : is_int_end text (b'F' ∷ rest) ≡ true = lt→ltb _ _ (omega arith) in
    rw (long, loop, in_range) (unfold add_call_mark in refl)

-- A path of segments that are not empty, do not begin with a digit, have no colon and no NUL, and
-- are shorter than 2^31, which has fewer than 2^31 - 1 bytes and whose mangled text has fewer than
-- 2^31 - 2, so that no `int` overflows: `_yrt_mangle_path` mangles it, and a symbol made of the
-- mark `_Y`, what that gives, and an `F`, with anything behind it, demangles to the path with the
-- mark of a call; the length that is passed need only be more than 2.
pub demangle_symbol-mangle_path :
    (s : List ℕ) (ts : List (List ℕ)) (rest : List ℕ) (len : ℕ)
    → IsSegment s
    → All IsSegment ts
    → length (path_of s ts) + 1 < 2 ^ 31
    → 2 + length (mangled (s ∷ ts)) < 2 ^ 31
    → 2 < len
    → (mangle_path (path_of s ts) >>= λ path.
        demangle_symbol (b'_' ∷ b'Y' ∷ (path ++ b'F' ∷ rest)) len)
      ≡ some (path_of s ts ++ call_mark)
demangle_symbol-mangle_path s ts rest len h hs short short' k =
    rw (mangle_path-mangled s ts h hs short) (demangle_symbol-mangled s ts rest len h hs short' k)
