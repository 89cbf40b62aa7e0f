-- ===== src/Strings/Small.antt =====
-- c/ystring.c: strings that are built from nothing, of fewer than 99 bytes. Their block is the
-- first one of 100 bytes, which has room for the NUL that `str_concat` writes.
use yruntime.Base.{
  ℕ, ◌<◌, ◌≤◌, ◌≡◌, ◌⊎◌, inl, inr, refl, ◌∙◌, List, [], ◌++◌, some, length, take, length-append,
  length-take, arith, le→leb,
}
use yruntime.Strings.Code.{YString, str_empty, str_create_len, str_concat, read_bytes}
use yruntime.Strings.Concat.{Text, concat_capacity, str_concat-Text, read_bytes-Text}
use yruntime.Strings.Build.{str_empty-Text, str_create_len-Text}

-- A string of the first block that grows from nothing, or nothing yet.
pub record Small (y : YString) (s : List ℕ) : Type 0 where
  pub shown : Text y s
  pub block : (y.capacity ≡ 100) ⊎ ((y.capacity ≡ 0) × (length s ≡ 0))

pub str_empty-Small : Small str_empty []
str_empty-Small = record { shown = str_empty-Text; block = inr (refl, refl) }

-- `str_concat` copies no more of the right operand than its length.
str_concat-create_len :
    (gc_malloc : ℕ → List ℕ) (left : YString) (data' : List ℕ) (nb : ℕ)
    → nb ≤ length data'
    → str_concat gc_malloc left (str_create_len data' nb)
      ≡ str_concat gc_malloc left (str_create_len (take nb data') (length (take nb data')))
unfolding str_concat
str_concat-create_len gc_malloc left data' nb inside =
    let text = take nb data' in
    let whole : read_bytes text (length text) ≡ some text =
      read_bytes-Text (str_create_len text (length text)) text (str_create_len-Text text) in
    let front : read_bytes data' nb ≡ some text =
      unfold read_bytes in rw (le→leb nb (length data') inside) refl in
    rw (whole, front, length-take nb data' inside) refl

module _ (gc_malloc : ℕ → List ℕ) (gc_malloc-size : (n : ℕ) → length (gc_malloc n) ≡ n) where
  pub str_concat-Small :
      (left right : YString) (s text : List ℕ)
      → Small left s
      → Text right text
      → length (s ++ text) < 99
      → (y : YString) × (str_concat gc_malloc left right ≡ some y) × Small y (s ++ text)
  str_concat-Small left right s text small shown few =
      let both = length-append s text in
      let room : concat_capacity left s text ≡ 100 = elim small.block [
        | inl full ↦ rw full (ground arith)
        | inr (nothing, no_text) ↦ rw (nothing, no_text) (ground arith)
      ] in
      elim (str_concat-Text gc_malloc left right s text gc_malloc-size small.shown shown
        (omega arith)) [
          | inl (wide, (y, run, cap, shown')) ↦
              (y, run, record { shown = shown'; block = inl (cap ∙ room) })
          | inr (tight, run) ↦ absurd (omega arith)
        ]

  pub str_concat-Small_len :
      (left : YString) (s data' : List ℕ) (nb : ℕ)
      → Small left s
      → nb ≤ length data'
      → length (s ++ take nb data') < 99
      → (y : YString) × (str_concat gc_malloc left (str_create_len data' nb) ≡ some y)
        × Small y (s ++ take nb data')
  str_concat-Small_len left s data' nb small inside few =
      let text = take nb data' in
      let (y, run, small') =
        str_concat-Small left (str_create_len text (length text)) s text small
          (str_create_len-Text text) few in
      (y, str_concat-create_len gc_malloc left data' nb inside ∙ run, small')
