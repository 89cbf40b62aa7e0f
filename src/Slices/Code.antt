-- ===== src/Slices/Code.antt =====
-- c/ymemory.c: the functions that make slices, over the bytes of the blocks.
use yruntime.Base.{ℕ, zero, suc, ◌+◌, ◌*◌, ◌%◌, ◌^◌, List, Option, some, ◌>>=◌}
use yruntime.Utf.Code.{write_bytes}
use yruntime.Strings.Code.{read_bytes}

-- `_yrt_array_`, with the bytes that can be used from `data` on.
pub record Slice : Type 0 where
  pub len : ℕ
  pub data' : List ℕ

-- The loop of `_yrt_alloc_array`, with so many elements left from `i` on.
unfoldable pub fill_loop : ℕ → ℕ → List ℕ → ℕ → List ℕ → Option (List ℕ)
fill_loop zero i element size block = some block
fill_loop (suc left) i element size block = do
  block' ← write_bytes block (i * size % 2 ^ 64) element
  fill_loop left (i + 1) element size block'

-- `gc_malloc` gives the bytes of the block of that size that `GC_malloc` returns.
module _ (gc_malloc : ℕ → List ℕ) where
  unfoldable pub dup_slice : Slice → ℕ → Option Slice
  dup_slice arr size = do
    bytes ← read_bytes arr.data' (arr.len * size % 2 ^ 64)
    block ← write_bytes (gc_malloc (arr.len * size % 2 ^ 64)) 0 bytes
    some (record { len = arr.len; data' = block })

  unfoldable pub alloc_array : List ℕ → ℕ → ℕ → Option Slice
  alloc_array data' size len = do
    element ← read_bytes data' size
    block ← fill_loop len 0 element size (gc_malloc (len * size % 2 ^ 64))
    some (record { len = len; data' = block })

  unfoldable pub new_array : ℕ → ℕ → Slice
  new_array size len = record { len = len; data' = gc_malloc (len * size % 2 ^ 64) }

  -- `_yrt_new_block`, and `_yrt_dupl_any` with the bytes from `data` on.
  abbrev pub new_block : ℕ → ℕ → List ℕ
  new_block size len = gc_malloc (len * size % 2 ^ 64)

  unfoldable pub dupl_any : List ℕ → ℕ → Option (List ℕ)
  dupl_any data' len = do bytes ← read_bytes data' len; write_bytes (gc_malloc len) 0 bytes

  unfoldable pub concat_slices : Slice → Slice → ℕ → Option Slice
  concat_slices left right size = do
    first ← read_bytes left.data' (left.len * size % 2 ^ 64)
    block ← write_bytes (gc_malloc ((left.len + right.len) % 2 ^ 64 * size % 2 ^ 64)) 0 first
    second ← read_bytes right.data' (right.len * size % 2 ^ 64)
    block' ← write_bytes block (left.len * size % 2 ^ 64) second
    some (record { len = (left.len + right.len) % 2 ^ 64; data' = block' })
