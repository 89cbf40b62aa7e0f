-- ===== src/Mangle/Paths.antt =====
-- c/demangle.c: `_yrt_mangle_path`.
use yruntime.Base.{
  ℕ, refl, arith, ◌≡◌, ◌≤◌, ◌<◌, ◌^◌, lt→ltb, ltb, guard, ◌>>◌, Option, some, length, ◌+◌, List, [],
  ◌∷◌, ◌++◌, true, false, ◌==◌, if◌then◌else◌, take, drop,
}
use yruntime.Mangle.Decimal.{str_from_int}

-- The number of counted characters, and as many bytes from `start` on.
abbrev pub flush : List ℕ → ℕ → ℕ → List ℕ → List ℕ
flush bytes current start str = str ++ (str_from_int current ++ take current (drop start bytes))

-- The loop, over the bytes from `data [i]` on: a colon takes the byte behind it along, and a NUL is
-- not counted. What stands behind the loop is the case of no bytes left.
unfoldable pub mangle_loop : List ℕ → List ℕ → ℕ → ℕ → List ℕ → List ℕ
mangle_loop bytes [] current start str = if current == 0 then str else flush bytes current start str
mangle_loop bytes (c ∷ []) current start str = elim (c == b':') [
  | true ↦ flush bytes current start str
  | false ↦ mangle_loop bytes [] (if c == 0 then current else current + 1) start str
]
mangle_loop bytes (c ∷ d ∷ rest) current start str = elim (c == b':') [
  | true ↦ mangle_loop bytes rest 0 (start + current + 2) (flush bytes current start str)
  | false ↦ mangle_loop bytes (d ∷ rest) (if c == 0 then current else current + 1) start str
]

-- The last value of `i`. It bounds `current` and `start` in every round, so that an `int` of the
-- loop overflows just where this is no `int`.
unfoldable pub path_end : List ℕ → ℕ
path_end [] = 0
path_end (c ∷ []) = if c == b':' then 2 else 1
path_end (c ∷ d ∷ rest) =
    let behind = path_end rest in
    let next = path_end (d ∷ rest) in if c == b':' then behind + 2 else next + 1

-- `none` is the overflow of an `int`.
unfoldable pub mangle_path : List ℕ → Option (List ℕ)
mangle_path bytes = guard (ltb (path_end bytes) (2 ^ 31)) >> some (mangle_loop bytes bytes 0 0 [])

path_end-bound : (bytes : List ℕ) → path_end bytes ≤ length bytes + 1
unfolding path_end
path_end-bound [] = omega arith
path_end-bound (c ∷ []) = ground arith
path_end-bound (c ∷ d ∷ rest) = ground (arith, path_end-bound rest, path_end-bound (d ∷ rest))

-- A path with fewer than 2^31 - 1 bytes overflows none of the counters.
pub mangle_path-short :
    (bytes : List ℕ)
    → length bytes + 1 < 2 ^ 31
    → mangle_path bytes ≡ some (mangle_loop bytes bytes 0 0 [])
unfolding mangle_path
mangle_path-short bytes short =
    let fits : ltb (path_end bytes) (2 ^ 31) ≡ true =
      lt→ltb _ _ (omega (arith, path_end-bound bytes)) in
    rw fits refl
