-- ===== src/Slices/Contents.antt =====
-- c/ymemory.c: what the slices hold that the functions return.
use native.Mathlib.Nat.{suc-mul, add-mul, one-mul}
use yruntime.Base.{
  drop-all, ℕ, zero, suc, ◌+◌, ◌*◌, ◌%◌, ◌^◌, ◌≤◌, ◌<◌, ◌≡◌, refl, ap, sym, ◌∙◌, List, [], ◌∷◌,
  ◌++◌, append_assoc, append-nil, some, true, leb, take, drop, length, length-append, length-drop,
  le→leb, arith,
}
use yruntime.Utf.Code.{write_bytes}
use yruntime.Utf.Arrays.{write_bytes-append}
use yruntime.Strings.Code.{read_bytes}
use yruntime.Slices.Code.{Slice, fill_loop, dup_slice, alloc_array, concat_slices}

take-all : (bytes : List ℕ) → take (length bytes) bytes ≡ bytes
take-all [] = refl
take-all (b ∷ bytes) = ap (λ r. b ∷ r) (take-all bytes)

read_bytes-all : (bytes : List ℕ) (n : ℕ) → length bytes ≡ n → read_bytes bytes n ≡ some bytes
unfolding read_bytes
read_bytes-all bytes n h =
    let inside : leb (length bytes) (length bytes) ≡ true = le→leb _ _ (omega arith) in
    rw (← h, inside) (ap some (take-all bytes))

-- An element so many times over.
abbrev pub repeat : ℕ → List ℕ → List ℕ
repeat zero element = []
repeat (suc n) element = element ++ repeat n element

fill_loop-repeat :
    (left i : ℕ) (element front back : List ℕ) (size : ℕ)
    → length element ≡ size
    → length front ≡ i * size
    → length back ≡ left * size
    → i * size + left * size < 2 ^ 64
    → fill_loop left i element size (front ++ back) ≡ some (front ++ repeat left element)
unfolding fill_loop
fill_loop-repeat zero i element front [] size he hf hb small = refl
fill_loop-repeat zero i element front (b ∷ back) size he hf hb small = absurd (omega arith)
fill_loop-repeat (suc left) i element front back size he hf hb small =
    let more : suc left * size ≡ left * size + size = suc-mul left size in
    let next : (i + 1) * size ≡ i * size + size =
      add-mul i 1 size ∙ ap (λ n. i * size + n) (one-mul size) in
    let behind = drop (length element) back in
    let place : i * size % 2 ^ 64 ≡ length front = omega arith in
    let written =
      write_bytes-append element front back (omega arith)
      ∙ ap some (sym (append_assoc front element behind)) in
    let rest =
      fill_loop-repeat left (i + 1) element (front ++ element) behind size he
        (omega (arith, length-append front element))
        (omega (arith, length-drop (length element) back)) (omega arith) in
    rw (place, written) (rest ∙ ap some (append_assoc front element (repeat left element)))

module _ (gc_malloc : ℕ → List ℕ) (size : ℕ) where
  alloc_array-repeat :
      (len : ℕ) (element : List ℕ)
      → ((n : ℕ) → length (gc_malloc n) ≡ n)
      → length element ≡ size
      → len * size < 2 ^ 64
      → alloc_array gc_malloc element size len
        ≡ some (record { len = len; data' = repeat len element })
  unfolding alloc_array
  alloc_array-repeat len element blocks he small =
      let bytes : len * size % 2 ^ 64 ≡ len * size = omega arith in
      let filled =
        fill_loop-repeat len 0 element [] (gc_malloc (len * size)) size he (omega arith)
          (blocks (len * size)) (omega arith) in
      rw (read_bytes-all element size he, bytes, filled) refl

  -- The bytes of one slice at the front of a block.
  write_front :
      (bytes block : List ℕ)
      → length bytes ≤ length block
      → write_bytes block 0 bytes ≡ some (bytes ++ drop (length bytes) block)
  write_front bytes block h = write_bytes-append bytes [] block h

  dup_slice-same :
      (arr : Slice)
      → ((n : ℕ) → length (gc_malloc n) ≡ n)
      → length arr.data' ≡ arr.len * size
      → arr.len * size < 2 ^ 64
      → dup_slice gc_malloc arr size ≡ some arr
  unfolding dup_slice
  dup_slice-same arr blocks h small =
      let n = arr.len * size in
      let wrap : n % 2 ^ 64 ≡ n = omega arith in
      let block = gc_malloc n in
      let written = write_front arr.data' block (omega (arith, blocks n)) in
      let nothing = drop-all (length arr.data') block (omega (arith, blocks n)) in
      rw (wrap, read_bytes-all arr.data' n h, written, nothing, append-nil) refl

  concat_slices-append :
      (left right : Slice)
      → ((n : ℕ) → length (gc_malloc n) ≡ n)
      → length left.data' ≡ left.len * size
      → length right.data' ≡ right.len * size
      → left.len + right.len < 2 ^ 64
      → left.len * size + right.len * size < 2 ^ 64
      → concat_slices gc_malloc left right size
        ≡ some (record { len = left.len + right.len; data' = left.data' ++ right.data' })
  unfolding concat_slices
  concat_slices-append left right blocks hl hr count both =
      let total = (left.len + right.len) * size in
      let split : total ≡ left.len * size + right.len * size = add-mul left.len right.len size in
      let lens : (left.len + right.len) % 2 ^ 64 ≡ left.len + right.len = omega arith in
      let wrap : total % 2 ^ 64 ≡ total = omega arith in
      let wrap_left : left.len * size % 2 ^ 64 ≡ left.len * size = omega arith in
      let wrap_right : right.len * size % 2 ^ 64 ≡ right.len * size = omega arith in
      let block = gc_malloc total in
      let behind = drop (length left.data') block in
      let space = length-drop (length left.data') block in
      let first = write_front left.data' block (omega (arith, blocks total)) in
      let second = write_bytes-append right.data' left.data' behind (omega (arith, blocks total)) in
      let nothing = drop-all (length right.data') behind (omega (arith, blocks total)) in
      let at_end = ap (λ n. write_bytes (left.data' ++ behind) n right.data') (sym hl) ∙ second in
      rw
        (
          lens,
          wrap,
          wrap_left,
          wrap_right,
          read_bytes-all left.data' (left.len * size) hl,
          read_bytes-all right.data' (right.len * size) hr,
          first,
          at_end,
          nothing,
          append-nil,
        )
        refl

-- With blocks of the size that is asked for, and slices whose bytes fit 64 bits:
-- `_yrt_alloc_array` gives a slice of so many copies of the element, `_yrt_dup_slice` one of the
-- same bytes, and `_yrt_concat_slices` one of the bytes of both; none writes outside its block.
pub slices-contents :
    (gc_malloc : ℕ → List ℕ) (size len : ℕ) (element : List ℕ) (left right : Slice)
    → ((n : ℕ) → length (gc_malloc n) ≡ n)
    → length element ≡ size
    → length left.data' ≡ left.len * size
    → length right.data' ≡ right.len * size
    → len * size < 2 ^ 64
    → left.len + right.len < 2 ^ 64
    → left.len * size + right.len * size < 2 ^ 64
    → (alloc_array gc_malloc element size len
        ≡ some (record { len = len; data' = repeat len element }))
      × (dup_slice gc_malloc left size ≡ some left)
      × (concat_slices gc_malloc left right size
          ≡ some (record { len = left.len + right.len; data' = left.data' ++ right.data' }))
slices-contents gc_malloc size len element left right blocks he hl hr small count both = (
  alloc_array-repeat gc_malloc size len element blocks he small,
  dup_slice-same gc_malloc size left blocks hl (omega arith),
  concat_slices-append gc_malloc size left right blocks hl hr count both,
)
