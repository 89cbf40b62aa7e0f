-- ===== src/Strings/Sharing.antt =====
-- c/ystring.c: what `str_concat` does to strings that share the blocks of its operands.
use mathlib.Core.Path.{ap₂, subst}
use yruntime.Base.{
  ℕ, ◌+◌, ◌%◌, ◌^◌, ◌≤◌, ◌<◌, ◌≡◌, ◌⊎◌, inl, inr, refl, sym, ap, ◌∙◌, ◌++◌, true, false, ltb,
  Bool-cases, arith,
}
use yruntime.Strings.Code.{grown_capacity}
use yruntime.Strings.Memory.{
  Memory, read_range, write_range, read_range-ext, write_range_outside, read_range-write_range,
  length-read_range,
}
use yruntime.Strings.Shared.{
  Pointed, text_of, str_concat_at, write_start, write_end, IsOutside, written, written_outside,
  read_range-written,
}

module _ (mem : Memory) (left right : Pointed) (place : ℕ) where
  str_concat_at_kept :
      left.len + right.len < 2 ^ 62
      → ltb left.capacity (left.len + right.len + 1) ≡ false
      → str_concat_at mem left right place ≡ (
        written mem left.data' left.len (text_of mem right),
        record left { len = left.len + right.len },
      )
  unfolding str_concat_at written
  str_concat_at_kept small room =
      let count = length-read_range mem right.data' right.len in
      let total : (left.len + right.len) % 2 ^ 64 ≡ left.len + right.len = omega arith in
      let min : (left.len + right.len + 1) % 2 ^ 64 ≡ left.len + right.len + 1 = omega arith in
      rw (count, total, min, room) (rw total refl)

  str_concat_at_grown :
      left.len + right.len < 2 ^ 62
      → ltb left.capacity (left.len + right.len + 1) ≡ true
      → let grown = write_range mem place (text_of mem left) in
        str_concat_at mem left right place ≡ (
          written grown place left.len (text_of grown right),
          record {
            data' = place;
            len = left.len + right.len;
            capacity = grown_capacity left.len (left.len + right.len + 1);
          },
        )
  unfolding str_concat_at written
  str_concat_at_grown small short =
      let grown = write_range mem place (text_of mem left) in
      let count = length-read_range grown right.data' right.len in
      let total : (left.len + right.len) % 2 ^ 64 ≡ left.len + right.len = omega arith in
      let min : (left.len + right.len + 1) % 2 ^ 64 ≡ left.len + right.len + 1 = omega arith in
      rw (total, min, short, count) (rw total refl)

  -- Bytes outside of the range that is written keep their values.
  str_concat_at_outside :
      (x : ℕ)
      → left.len + right.len < 2 ^ 62
      → (x < write_start left right place) ⊎ (write_end left right place ≤ x)
      → (str_concat_at mem left right place).0 x ≡ mem x
  str_concat_at_outside x small out =
      let grown = write_range mem place (text_of mem left) in
      let n = length-read_range mem left.data' left.len in
      let k = length-read_range mem right.data' right.len in
      let k' = length-read_range grown right.data' right.len in
      elim (Bool-cases (ltb left.capacity (left.len + right.len + 1))) [
        | inl short ↦
            let out' = rw short at out in
            rw (str_concat_at_grown small short) (
              written_outside grown place left.len (text_of grown right) x (ground arith)
              ∙ write_range_outside mem place (text_of mem left) x (ground arith))
        | inr room ↦
            let out' = rw room at out in
            rw (str_concat_at_kept small room)
              (written_outside mem left.data' left.len (text_of mem right) x (ground arith))
      ]

  str_concat_at_frame :
      (y : Pointed)
      → left.len + right.len < 2 ^ 62
      → IsOutside (write_start left right place) (write_end left right place) y
      → text_of (str_concat_at mem left right place).0 y ≡ text_of mem y
  str_concat_at_frame y small out =
      read_range-ext _ mem y.data' y.len
        (λ x low high. str_concat_at_outside x small (ground arith))

  str_concat_at_text :
      left.len + right.len < 2 ^ 62
      → IsOutside (write_start left right place) (write_end left right place) left
      → IsOutside (write_start left right place) (write_end left right place) right
      → text_of (str_concat_at mem left right place).0 (str_concat_at mem left right place).1
        ≡ text_of mem left ++ text_of mem right
  str_concat_at_text small out out' =
      let s = text_of mem left in
      let grown = write_range mem place s in
      let k = length-read_range mem right.data' right.len in
      let k' = length-read_range grown right.data' right.len in
      elim (Bool-cases (ltb left.capacity (left.len + right.len + 1))) [
        | inl short ↦
            let apart = rw short at out' in
            let same : text_of grown right ≡ text_of mem right =
              read_range-ext grown mem right.data' right.len (λ x low high.
                write_range_outside mem place s x
                  (ground (arith, length-read_range mem left.data' left.len))) in
            let kept : read_range grown place left.len ≡ s =
              subst (λ n. read_range grown place n ≡ s) (length-read_range mem left.data' left.len)
                (read_range-write_range mem place s) in
            rw (str_concat_at_grown small short) (
              rw k' at (read_range-written grown place left.len (text_of grown right))
              ∙ ap₂ (λ front back. front ++ back) kept same)
        | inr room ↦
            rw (str_concat_at_kept small room)
              (rw k at (read_range-written mem left.data' left.len (text_of mem right)))
      ]

-- For operands of fewer than 2^62 bytes together, which the bytes that `str_concat` writes do not
-- touch: the result shows the two texts, one behind the other, and any string that these bytes do
-- not touch keeps its text, be it in the same block as an operand.
pub str_concat_at_texts :
    (mem : Memory) (left right y : Pointed) (place : ℕ)
    → left.len + right.len < 2 ^ 62
    → IsOutside (write_start left right place) (write_end left right place) left
    → IsOutside (write_start left right place) (write_end left right place) right
    → IsOutside (write_start left right place) (write_end left right place) y
    → (text_of (str_concat_at mem left right place).0 (str_concat_at mem left right place).1
        ≡ text_of mem left ++ text_of mem right)
      × (text_of (str_concat_at mem left right place).0 y ≡ text_of mem y)
str_concat_at_texts mem left right y place small out out' outside = (
  str_concat_at_text mem left right place small out out',
  str_concat_at_frame mem left right place y small outside,
)

-- Where the left string has room for either of two texts of the same length, which lie outside of
-- its block: if one is appended to it and then the other is appended to it, both results show the
-- second text behind the left string's; the first result has lost its own.
pub str_concat_at_overwrites :
    (mem : Memory) (left one two : Pointed) (place place' : ℕ)
    → left.len + one.len < left.capacity
    → left.capacity < 2 ^ 62
    → two.len ≡ one.len
    → IsOutside left.data' (left.data' + left.capacity + 2) one
    → IsOutside left.data' (left.data' + left.capacity + 2) two
    → let (mem', first) = str_concat_at mem left one place in
      let (mem'', second) = str_concat_at mem' left two place' in
      (text_of mem' first ≡ text_of mem left ++ text_of mem one)
      × (text_of mem'' first ≡ text_of mem left ++ text_of mem two)
      × (text_of mem'' second ≡ text_of mem left ++ text_of mem two)
str_concat_at_overwrites mem left one two place place' room small same apart apart' =
    let mem' = (str_concat_at mem left one place).0 in
    let fits : ltb left.capacity (left.len + one.len + 1) ≡ false = ground arith in
    let fits' : ltb left.capacity (left.len + two.len + 1) ≡ false = ground arith in
    let total : left.len + one.len < 2 ^ 62 = omega arith in
    let total' : left.len + two.len < 2 ^ 62 = omega arith in
    let text = str_concat_at_text mem left one place total (ground arith) (ground arith) in
    let text' = str_concat_at_text mem' left two place' total' (ground arith) (ground arith) in
    let left_kept = str_concat_at_frame mem left one place left total (ground arith) in
    let two_kept = str_concat_at_frame mem left one place two total (ground arith) in
    let second = text' ∙ ap₂ (λ s t. s ++ t) left_kept two_kept in
    let results : (str_concat_at mem left one place).1 ≡ (str_concat_at mem' left two place').1 =
      ap (λ r. r.1) (str_concat_at_kept mem left one place total fits)
      ∙ ap (λ n. record left { len = left.len + n }) (sym same)
      ∙ sym (ap (λ r. r.1) (str_concat_at_kept mem' left two place' total' fits')) in
    (text, rw results second, second)
