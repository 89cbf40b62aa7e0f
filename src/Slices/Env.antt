-- ===== src/Slices/Env.antt =====
-- c/env.c: the current directory as a slice.
use yruntime.Base.{ℕ, List, [], Option, none, some, length, c_string}
use yruntime.Slices.Code.{Slice, dup_slice}

-- `getcwd` gives the bytes of the buffer `cwd` of that size, where it does not fail; `PATH_MAX` is
-- 4096.
unfoldable pub get_current_dir : (ℕ → List ℕ) → (ℕ → Option (List ℕ)) → Option Slice
get_current_dir gc_malloc getcwd = elim (getcwd 4096) [
  | none ↦ some (record { len = 0; data' = [] })
  | some cwd ↦ dup_slice gc_malloc (record { len = length (c_string cwd); data' = cwd }) 1
]
