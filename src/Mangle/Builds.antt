-- ===== src/Mangle/Builds.antt =====
-- c/demangle.c and c/ystring.c: the string that `_yrt_demangle_symbol` builds.
use mathlib.Core.Path.{subst}
use yruntime.Base.{
  ℕ, zero, suc, ◌<◌, ◌≤◌, ◌≡◌, ◌⊎◌, inl, inr, refl, sym, ap, ◌∙◌, List, [], ◌∷◌, ◌++◌, some, Bool,
  true, false, leb, ◌==◌, if◌then◌else◌, length, take, drop, length-append, length-take, take-drop,
  get_elem?, ◌||◌, not, arith, leb→le, Bool-cases, bind-inverse, bind-some, guard-inverse, c_string,
}
use yruntime.Strings.Code.{YString, str_empty, str_create_len, str_concat}
use yruntime.Strings.Build.{str_concat_c_str}
use yruntime.Strings.Small.{Small, str_empty-Small, str_concat-Small_len}
use yruntime.Mangle.Decimal.{demangle_number}
use yruntime.Mangle.Demangle.{
  is_int_end, two_colons, call_mark, demangle_loop, add_call_mark, demangle_symbol,
}
use yruntime.Mangle.Built.{build_loop, build_call_mark, build_symbol}

-- What a round of the loop does, where the loop ends with a text.
demangle_loop-round :
    (fuel : ℕ) (rest : List ℕ) (first : Bool) (ret text behind : List ℕ)
    → demangle_loop (suc fuel) rest first ret ≡ some (text, behind)
    → (nb : ℕ) × (next : List ℕ) × (demangle_number rest 0 ≡ some (nb, next))
      × ((((nb == 0) ≡ true) × (ret ≡ text) × (next ≡ behind))
          ⊎ (((nb == 0) ≡ false)
              × (nb ≤ length next)
              × (demangle_loop fuel
                    (drop nb next)
                    false
                    ((if first then ret else ret ++ two_colons) ++ take nb next)
                  ≡ some (text, behind))))
unfolding demangle_loop
demangle_loop-round fuel rest first ret text behind run =
    let ((nb, next), read, h) = bind-inverse (demangle_number rest 0) _ run in
    (
      nb,
      next,
      read,
      elim (Bool-cases (nb == 0)) [
        | inl last ↦
            let ends : some (ret, next) ≡ some (text, behind) = rw last at h in inl (last, cc, cc)
        | inr more ↦
            let h' = rw more at h in
            let (inside, k) = guard-inverse (leb nb (length next)) _ h' in
            inr (more, leb→le _ _ inside, k)
      ],
    )

demangle_loop-longer :
    (fuel : ℕ) (rest : List ℕ) (first : Bool) (ret text behind : List ℕ)
    → demangle_loop fuel rest first ret ≡ some (text, behind)
    → length ret ≤ length text
unfolding demangle_loop
demangle_loop-longer zero rest first ret text behind run = cc
demangle_loop-longer (suc fuel) rest first ret text behind run =
    let (nb, next, read, cases) = demangle_loop-round fuel rest first ret text behind run in
    elim cases [
      | inl (last, same, left) ↦ omega (arith, ap length same)
      | inr (more, inside, run') ↦
          let mid = if first then ret else ret ++ two_colons in
          let longer = demangle_loop-longer fuel _ _ _ text behind run' in
          let front : length ret ≤ length mid = elim (Bool-cases first) [
            | inl start ↦ rw start (omega arith)
            | inr later ↦ rw later (omega (arith, length-append ret two_colons))
          ] in
          omega (arith, length-append mid (take nb next))
    ]

add_call_mark-longer :
    (ret rest text : List ℕ) → add_call_mark ret rest ≡ some text → length ret ≤ length text
unfolding add_call_mark
add_call_mark-longer ret rest text run =
    let (c, read, h) = bind-inverse (get_elem? rest 0) _ run in
    let same : (if c == b'F' then ret ++ call_mark else ret) ≡ text = cc in
    elim (Bool-cases (c == b'F')) [
      | inl call ↦ omega (arith, ap length (rw call at same), length-append ret call_mark)
      | inr other ↦ omega (arith, ap length (rw other at same))
    ]

module _ (gc_malloc : ℕ → List ℕ) (gc_malloc-size : (n : ℕ) → length (gc_malloc n) ≡ n) where
  -- A segment of the loop, with the colons in front of it.
  build_segment :
      (left : YString) (s next : List ℕ) (first : Bool) (nb : ℕ)
      → Small left s
      → nb ≤ length next
      → length ((if first then s else s ++ two_colons) ++ take nb next) < 99
      → (colons y : YString) × ((if first
            then some left
            else str_concat_c_str gc_malloc left (some two_colons))
          ≡ some colons)
        × (str_concat gc_malloc colons (str_create_len next nb) ≡ some y)
        × Small y ((if first then s else s ++ two_colons) ++ take nb next)
  unfolding c_string
  build_segment left s next true nb small inside few =
      let (y, run, small') =
        str_concat-Small_len gc_malloc gc_malloc-size left s next nb small inside few in
      (left, y, refl, run, small')
  build_segment left s next false nb small inside few =
      let front = length-append (s ++ two_colons) (take nb next) in
      let (colons, run, small') =
        str_concat-Small_len gc_malloc gc_malloc-size left s two_colons 2 small (omega arith)
          (omega arith) in
      let (y, run', small'') =
        str_concat-Small_len gc_malloc gc_malloc-size colons (s ++ two_colons) next nb small' inside
          few in
      (colons, y, run, run', small'')

  build_loop-Small :
      (fuel : ℕ) (rest : List ℕ) (first : Bool) (left : YString) (ret text behind : List ℕ)
      → Small left ret
      → demangle_loop fuel rest first ret ≡ some (text, behind)
      → length text < 99
      → (y : YString) × (build_loop gc_malloc fuel rest first left ≡ some (y, behind))
        × Small y text
  unfolding demangle_loop build_loop
  build_loop-Small zero rest first left ret text behind small run few = cc
  build_loop-Small (suc fuel) rest first left ret text behind small run few =
      let (nb, next, read, cases) = demangle_loop-round fuel rest first ret text behind run in
      elim cases [
        | inl (last, same, same') ↦ (
          left,
          bind-some (demangle_number rest 0) _ read ∙ rw (last, same') refl,
          subst (Small left) same small,
        )
        | inr (more, inside, run') ↦
            let longer = demangle_loop-longer fuel _ _ _ text behind run' in
            let (colons, mid, put, put', small') =
              build_segment left ret next first nb small inside (omega arith) in
            let (y, rounds, small'') =
              build_loop-Small fuel (drop nb next) false mid _ text behind small' run' few in
            (
              y,
              bind-some (demangle_number rest 0) _ read ∙ rw (more, put, put', rounds) refl,
              small'',
            )
      ]

  build_call_mark-Small :
      (left : YString) (ret rest text : List ℕ)
      → Small left ret
      → add_call_mark ret rest ≡ some text
      → length text < 99
      → (y : YString) × (build_call_mark gc_malloc left rest ≡ some y) × Small y text
  unfolding add_call_mark build_call_mark c_string
  build_call_mark-Small left ret rest text small run few =
      let (c, read, h) = bind-inverse (get_elem? rest 0) _ run in
      elim (Bool-cases (c == b'F')) [
        | inl call ↦
            let ends : some (ret ++ call_mark) ≡ some text = rw call at h in
            let same : ret ++ call_mark ≡ text = cc in
            let (y, run', small') =
              str_concat-Small_len gc_malloc gc_malloc-size left ret call_mark 6 small (omega arith)
                (omega (arith, ap length same)) in
            (y, rw (read, call) run', subst (Small y) same small')
        | inr other ↦
            let ends : some ret ≡ some text = rw other at h in
            let same : ret ≡ text = cc in
            (left, rw (read, other) refl, subst (Small left) same small)
      ]

-- The bytes of a string start with a text, which is as long as the string.
abbrev pub Shows : YString → List ℕ → Type 0
Shows y text = (spare : List ℕ) × (y.data' ≡ text ++ spare) × (y.len ≡ length text)

str_create_len-Shows :
    (data' text : List ℕ) (len : ℕ)
    → len ≤ length data'
    → some (take len data') ≡ some text
    → Shows (str_create_len data' len) text
str_create_len-Shows data' text len inside run =
    let same : take len data' ≡ text = cc in
    subst (Shows (str_create_len data' len)) same
      (drop len data', sym (take-drop len data'), sym (length-take len data' inside))

-- With blocks of the size that is asked for: where the length is not past the bytes, and a symbol
-- demangles to a text of fewer than 99 bytes, the calls of `str_concat` and `str_concat_c_str` in
-- `_yrt_demangle_symbol` all succeed, and the string that they build shows that text.
pub build_symbol-demangle_symbol :
    (gc_malloc : ℕ → List ℕ) (data' text : List ℕ) (len : ℕ)
    → ((n : ℕ) → length (gc_malloc n) ≡ n)
    → len ≤ length data'
    → demangle_symbol data' len ≡ some text
    → length text < 99
    → (y : YString) × (build_symbol gc_malloc data' len ≡ some y) × Shows y text
unfolding demangle_symbol build_symbol
build_symbol-demangle_symbol gc_malloc [] text zero size inside run few =
    (str_create_len [] 0, refl, str_create_len-Shows [] text 0 inside run)
build_symbol-demangle_symbol gc_malloc [] text (suc len) size inside run few = absurd (omega arith)
build_symbol-demangle_symbol gc_malloc (b ∷ []) text len size inside run few =
    let short : leb len 2 ≡ true = ground arith in
    let run' : some (take len (b ∷ [])) ≡ some text = rw short at run in
    (str_create_len (b ∷ []) len, rw short refl, str_create_len-Shows (b ∷ []) text len inside run')
build_symbol-demangle_symbol gc_malloc (b0 ∷ b1 ∷ rest) text len size inside run few =
    elim (Bool-cases (leb len 2 || not (b0 == b'_') || not (b1 == b'Y'))) [
      | inl other ↦
          let run' : some (take len (b0 ∷ b1 ∷ rest)) ≡ some text = rw other at run in
          (
            str_create_len (b0 ∷ b1 ∷ rest) len,
            rw other refl,
            str_create_len-Shows (b0 ∷ b1 ∷ rest) text len inside run',
          )
      | inr symbol ↦
          let run' = rw symbol at run in
          let ((ret, behind), rounds, run'') =
            bind-inverse (demangle_loop (suc (length rest)) rest true []) _ run' in
          let (in_range, marked) = guard-inverse (is_int_end rest behind) _ run'' in
          let longer = add_call_mark-longer ret behind text marked in
          let (y, built, small) =
            build_loop-Small gc_malloc size (suc (length rest)) rest true str_empty [] ret behind
              str_empty-Small rounds (omega arith) in
          let (y', built', small') =
            build_call_mark-Small gc_malloc size y ret behind text small marked few in
          (
            y',
            rw symbol (
                bind-some (build_loop gc_malloc (suc (length rest)) rest true str_empty) _ built
                ∙ rw in_range built'),
            (small'.shown.spare, small'.shown.bytes, small'.shown.size),
          )
    ]
