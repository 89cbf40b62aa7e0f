-- ===== src/Mangle/PathBuilds.antt =====
-- c/demangle.c and c/ystring.c: the string that `_yrt_mangle_path` builds.
use yruntime.Base.{
  ℕ, ◌^◌, ltb, guard-inverse, ◌+◌, ◌<◌, ◌≤◌, ◌≡◌, inl, inr, refl, ap, List, [], ◌∷◌, ◌++◌,
  append_assoc, some, ◌==◌, if◌then◌else◌, length, take, drop, length-append, length-drop, arith,
  Bool-cases,
}
use mathlib.Core.Path.{subst}
use yruntime.Strings.Code.{YString, str_empty, str_create_len}
use yruntime.Strings.Build.{str_printed-Text, str_fit-Text}
use yruntime.Strings.Small.{Small, str_empty-Small, str_concat-Small, str_concat-Small_len}
use yruntime.Mangle.Decimal.{str_from_int}
use yruntime.Strings.Concat.{Text}
use yruntime.Mangle.Paths.{path_end, flush, mangle_loop, mangle_path}
use yruntime.Mangle.Built.{build_flush, build_path_loop, build_path}

flush-longer :
    (bytes : List ℕ) (current start : ℕ) (str : List ℕ)
    → length str ≤ length (flush bytes current start str)
flush-longer bytes current start str =
    omega (arith, length-append str (str_from_int current ++ take current (drop start bytes)))

mangle_loop-longer :
    (bytes rest : List ℕ) (current start : ℕ) (str : List ℕ)
    → length str ≤ length (mangle_loop bytes rest current start str)
unfolding mangle_loop
mangle_loop-longer bytes [] current start str = elim (Bool-cases (current == 0)) [
  | inl nothing ↦ rw nothing (omega arith)
  | inr more ↦ rw more (flush-longer bytes current start str)
]
mangle_loop-longer bytes (c ∷ []) current start str = elim (Bool-cases (c == b':')) [
  | inl colon ↦ rw (mangle_loop, colon) (flush-longer bytes current start str)
  | inr other ↦
      rw (mangle_loop, other)
        (mangle_loop-longer bytes [] (if c == 0 then current else current + 1) start str)
]
mangle_loop-longer bytes (c ∷ d ∷ rest) current start str = elim (Bool-cases (c == b':')) [
  | inl colon ↦
      let here = flush-longer bytes current start str in
      let later =
        mangle_loop-longer bytes rest 0 (start + current + 2) (flush bytes current start str) in
      rw (mangle_loop, colon) (omega arith)
  | inr other ↦
      rw (mangle_loop, other)
        (mangle_loop-longer bytes (d ∷ rest) (if c == 0 then current else current + 1) start str)
]

module _ (gc_malloc : ℕ → List ℕ) (gc_malloc-size : (n : ℕ) → length (gc_malloc n) ≡ n) where
  build_flush-Small :
      (bytes : List ℕ) (current start : ℕ) (y : YString) (str : List ℕ)
      → Small y str
      → start + current ≤ length bytes
      → length (flush bytes current start str) < 99
      → (y' : YString) × (build_flush gc_malloc bytes current start y ≡ some y')
        × Small y' (flush bytes current start str)
  build_flush-Small bytes current start y str small inside few =
      let digits = str_from_int current in
      let segment = take current (drop start bytes) in
      let regroup = append_assoc str digits segment in
      let size = length-append (str ++ digits) segment in
      let size' = length-append str digits in
      let whole = ap length regroup in
      let (d, printed, shown) = str_printed-Text gc_malloc digits gc_malloc-size (omega arith) in
      let (mid, run, small') =
        str_concat-Small gc_malloc gc_malloc-size y d str digits small shown (omega arith) in
      let (y', run', small'') =
        str_concat-Small_len gc_malloc gc_malloc-size mid (str ++ digits) (drop start bytes) current
          small' (omega (arith, length-drop start bytes)) (omega arith) in
      (y', rw (printed, run) run', subst (Small y') regroup small'')

  build_path_loop-Small :
      (bytes rest : List ℕ) (current start : ℕ) (y : YString) (str : List ℕ)
      → Small y str
      → start + current + length rest ≤ length bytes
      → length (mangle_loop bytes rest current start str) < 99
      → (y' : YString) × (build_path_loop gc_malloc bytes rest current start y ≡ some y')
        × Small y' (mangle_loop bytes rest current start str)
  unfolding mangle_loop build_path_loop
  build_path_loop-Small bytes [] current start y str small inside few =
      elim (Bool-cases (current == 0)) [
        | inl nothing ↦ rw nothing (y, refl, small)
        | inr more ↦
            rw more
              (build_flush-Small bytes current start y str small (omega arith) (rw more at few))
      ]
  build_path_loop-Small bytes (c ∷ []) current start y str small inside few =
      elim (Bool-cases (c == b':')) [
        | inl colon ↦
            rw (mangle_loop, build_path_loop, colon)
              (build_flush-Small bytes current start y str small (omega arith)
                (rw (mangle_loop, colon) at few))
        | inr other ↦
            rw (mangle_loop, build_path_loop, other)
              (build_path_loop-Small bytes [] (if c == 0 then current else current + 1) start y str
                small (ground arith) (rw (mangle_loop, other) at few))
      ]
  build_path_loop-Small bytes (c ∷ d ∷ rest) current start y str small inside few =
      elim (Bool-cases (c == b':')) [
        | inl colon ↦
            let few' = rw (mangle_loop, colon) at few in
            let longer =
              mangle_loop-longer bytes rest 0 (start + current + 2)
                (flush bytes current start str) in
            let (mid, run, small') =
              build_flush-Small bytes current start y str small (omega arith) (omega arith) in
            let (y', run', small'') =
              build_path_loop-Small bytes rest 0 (start + current + 2) mid _ small' (omega arith)
                few' in
            rw (mangle_loop, build_path_loop, colon) (y', rw run run', small'')
        | inr other ↦
            rw (mangle_loop, build_path_loop, other)
              (build_path_loop-Small bytes (d ∷ rest) (if c == 0 then current else current + 1)
                start y str small (ground arith) (rw (mangle_loop, other) at few))
      ]

-- With blocks of the size that is asked for: where a path has a mangled text of fewer than 99
-- bytes, the calls of `str_concat` and `str_fit` in `_yrt_mangle_path` all succeed, and the string
-- that they build is that text, in a block that holds nothing else.
pub build_path-mangle_path :
    (gc_malloc : ℕ → List ℕ) (bytes text : List ℕ)
    → ((n : ℕ) → length (gc_malloc n) ≡ n)
    → mangle_path bytes ≡ some text
    → length text < 99
    → build_path gc_malloc bytes ≡ some (str_create_len text (length text))
unfolding mangle_path build_path
build_path-mangle_path gc_malloc bytes text size run few =
    let (in_range, run') = guard-inverse (ltb (path_end bytes) (2 ^ 31)) _ run in
    let same : mangle_loop bytes bytes 0 0 [] ≡ text = cc in
    let (y, built, small) =
      build_path_loop-Small gc_malloc size bytes bytes 0 0 str_empty [] str_empty-Small
        (omega arith) (omega (arith, ap length same)) in
    rw (in_range, built) (str_fit-Text gc_malloc y text size (subst (Text y) same small.shown))
