-- ===== src/Strings/Code.antt =====
-- c/ystring.c, over the bytes of the blocks. A string has its block to itself: that a result may
-- share the block of the left operand is not modelled.
use yruntime.Base.{
  ℕ, ◌+◌, ◌*◌, ◌%◌, ◌^◌, List, [], ◌∷◌, Option, some, ltb, leb, ◌==◌, if◌then◌else◌, ◌>>=◌, ◌>>◌,
  guard, take, length,
}
use yruntime.Utf.Code.{write_bytes}

-- `_ystring`, with the bytes that can be used from `data` on.
pub record YString : Type 0 where
  pub data' : List ℕ
  pub len : ℕ
  pub capacity : ℕ

-- The source of a `memcpy` of so many bytes.
unfoldable pub read_bytes : List ℕ → ℕ → Option (List ℕ)
read_bytes block n = guard (leb n (length block)) >> some (take n block)

abbrev pub grown_capacity : ℕ → ℕ → ℕ
grown_capacity len min =
    let n_len = if len == 0 then 100 else len * 2 % 2 ^ 64 in if ltb n_len min then min else n_len

abbrev pub str_create_len : List ℕ → ℕ → YString
str_create_len data' len = record { data' = data'; len = len; capacity = len }

abbrev pub str_empty : YString
str_empty = record { data' = []; len = 0; capacity = 0 }

-- `gc_malloc` gives the bytes of the block of that size that `GC_malloc` returns.
module _ (gc_malloc : ℕ → List ℕ) where
  unfoldable pub str_grow : YString → ℕ → Option YString
  str_grow self min = do
    text ← read_bytes self.data' self.len
    block ← write_bytes (gc_malloc (grown_capacity self.len min)) 0 text
    some (record { data' = block; len = self.len; capacity = grown_capacity self.len min })

  unfoldable pub str_concat : YString → YString → Option YString
  str_concat left right = do
    let min = ((left.len + right.len) % 2 ^ 64 + 1) % 2 ^ 64
    left' ← if ltb left.capacity min then str_grow left min else some left
    text ← read_bytes right.data' right.len
    copied ← write_bytes left'.data' left'.len text
    ended ← write_bytes copied min (0 ∷ [])
    some (record {
      data' = ended;
      len = (left'.len + right.len) % 2 ^ 64;
      capacity = left'.capacity;
    })

  unfoldable pub str_copy_len : List ℕ → ℕ → Option YString
  str_copy_len data' len = do
    text ← read_bytes data' len
    block ← write_bytes (gc_malloc len) 0 text
    some (record { data' = block; len = len; capacity = len })

  abbrev pub str_fit : YString → Option YString
  str_fit self = str_copy_len self.data' self.len
