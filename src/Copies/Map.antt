-- ===== src/Copies/Map.antt =====
-- c/ymemory.c: `_yrt_dcopy_head` and the operations on it, each one run under its mutex.
use yruntime.Base.{
  ℕ, zero, suc, ◌+◌, ◌*◌, ◌%◌, ◌^◌, List, [], ◌∷◌, Option, none, some, Bool, not, leb, ltb, ◌==◌,
  if◌then◌else◌, ◌>>=◌, get_elem?, set, length,
}

-- `struct _yrt_dcopy_map_node`. The two arrays are lists of words, with no word for NULL.
pub record DcopyMap : Type 0 where
  pub len : ℕ
  pub used : ℕ
  pub from : List ℕ
  pub to : List ℕ

-- `array [i] = value`; a write out of bounds has no result.
unfoldable pub store : List ℕ → ℕ → ℕ → Option (List ℕ)
store array i value = if ltb i (length array) then some (set array i value) else none

abbrev pub purge_dcopy_map : DcopyMap → DcopyMap
purge_dcopy_map m = record { len = 0; used = 0; from = []; to = [] }

abbrev pub dcopy_map_is_started : DcopyMap → Bool
dcopy_map_is_started m = not (m.len == 0)

-- The loop of `_yrt_find_dcopy_map`, with so many entries left from `i` on.
unfoldable pub find_loop : ℕ → ℕ → DcopyMap → ℕ → Option ℕ
find_loop zero i m data' = some 0
find_loop (suc left) i m data' = do
  key ← get_elem? m.from i
  let next = find_loop left (i + 1) m data'
  if key == data' then get_elem? m.to i else next

unfoldable pub find_dcopy_map : DcopyMap → ℕ → Option ℕ
find_dcopy_map m data' = find_loop m.used 0 m data'

-- The loop of `_yrt_dcopy_map_grow`, with so many words left from `i` on.
unfoldable pub copy_loop : ℕ → ℕ → List ℕ → List ℕ → Option (List ℕ)
copy_loop zero i source target = some target
copy_loop (suc left) i source target = do
  word ← get_elem? source i
  target' ← store target i word
  copy_loop left (i + 1) source target'

-- `gc_malloc` gives the words of the block of so many bytes that `GC_malloc` returns.
module _ (gc_malloc : ℕ → List ℕ) where
  unfoldable pub dcopy_map_grow : DcopyMap → Option DcopyMap
  dcopy_map_grow m =
      let len' = if m.len == 0 then 10 else m.len * 2 % 2 ^ 64 in
      do
        from' ← copy_loop m.len 0 m.from (gc_malloc (len' * 8 % 2 ^ 64))
        to' ← copy_loop m.len 0 m.to (gc_malloc (len' * 8 % 2 ^ 64))
        some (record { len = len'; used = m.used; from = from'; to = to' })

  unfoldable pub insert_dcopy_map : DcopyMap → ℕ → ℕ → Option DcopyMap
  insert_dcopy_map m data' to = do
    grown ← if leb m.len m.used then dcopy_map_grow m else some m
    from' ← store grown.from m.used data'
    to' ← store grown.to m.used to
    some (record { len = grown.len; used = (grown.used + 1) % 2 ^ 64; from = from'; to = to' })

  -- `_yrt_insert_dcopy_map` for each of the entries.
  abbrev pub insert_all : List (ℕ × ℕ) → DcopyMap → Option DcopyMap
  insert_all [] m = some m
  insert_all (e ∷ es) m = insert_dcopy_map m (e.0) (e.1) >>= insert_all es
