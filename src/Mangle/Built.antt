-- ===== src/Mangle/Built.antt =====
-- c/demangle.c: `_yrt_demangle_symbol` and `_yrt_mangle_path` with the calls that build their
-- strings, block by block.
use yruntime.Base.{
  ℕ, ◌^◌, ltb, guard, ◌>>◌, zero, suc, ◌+◌, List, [], ◌∷◌, Option, none, some, Bool, true, false,
  leb, ◌==◌, if◌then◌else◌, length, drop, get_elem?, ◌>>=◌, ◌||◌, not,
}
use yruntime.Strings.Code.{YString, str_empty, str_create_len, str_concat, str_fit}
use yruntime.Strings.Build.{str_concat_c_str, str_printed}
use yruntime.Mangle.Decimal.{demangle_number, str_from_int}
use yruntime.Mangle.Demangle.{two_colons, call_mark, is_int_end}
use yruntime.Mangle.Paths.{path_end}

module _ (gc_malloc : ℕ → List ℕ) where
  -- The loop; `str_concat` copies the bytes of a segment, and fails where they cannot be read.
  unfoldable pub build_loop : ℕ → List ℕ → Bool → YString → Option (YString × List ℕ)
  build_loop zero rest first ret = none
  build_loop (suc fuel) rest first ret = do
    (nb, rest) ← demangle_number rest 0
    elim (nb == 0) [
      | true ↦ some (ret, rest)
      | false ↦ (do
        colons ← if first then some ret else str_concat_c_str gc_malloc ret (some two_colons)
        ret' ← str_concat gc_malloc colons (str_create_len rest nb)
        build_loop fuel (drop nb rest) false ret')
    ]

  unfoldable pub build_call_mark : YString → List ℕ → Option YString
  build_call_mark ret rest = do
    c ← get_elem? rest 0
    if c == b'F' then str_concat_c_str gc_malloc ret (some call_mark) else some ret

  unfoldable pub build_symbol : List ℕ → ℕ → Option YString
  build_symbol (b0 ∷ b1 ∷ rest) len =
      if leb len 2 || not (b0 == b'_') || not (b1 == b'Y')
      then some (str_create_len (b0 ∷ b1 ∷ rest) len)
      else (do
        (ret, left) ← build_loop (suc (length rest)) rest true str_empty
        guard (is_int_end rest left) >> build_call_mark ret left)
  build_symbol data' len = if leb len 2 then some (str_create_len data' len) else none

  abbrev pub build_flush : List ℕ → ℕ → ℕ → YString → Option YString
  build_flush bytes current start str = do
    digits ← str_printed gc_malloc (str_from_int current)
    counted ← str_concat gc_malloc str digits
    str_concat gc_malloc counted (str_create_len (drop start bytes) current)

  -- The loop over the path, as in `mangle_loop`, and what stands behind it.
  unfoldable pub build_path_loop : List ℕ → List ℕ → ℕ → ℕ → YString → Option YString
  build_path_loop bytes [] current start str =
      if current == 0 then some str else build_flush bytes current start str
  build_path_loop bytes (c ∷ []) current start str = elim (c == b':') [
    | true ↦ build_flush bytes current start str
    | false ↦ build_path_loop bytes [] (if c == 0 then current else current + 1) start str
  ]
  build_path_loop bytes (c ∷ d ∷ rest) current start str = elim (c == b':') [
    | true ↦ (do
      str' ← build_flush bytes current start str
      build_path_loop bytes rest 0 (start + current + 2) str')
    | false ↦ build_path_loop bytes (d ∷ rest) (if c == 0 then current else current + 1) start str
  ]

  unfoldable pub build_path : List ℕ → Option YString
  build_path bytes = do
    str ← guard (ltb (path_end bytes) (2 ^ 31)) >> build_path_loop bytes bytes 0 0 str_empty
    str_fit gc_malloc str
