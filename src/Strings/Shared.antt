-- ===== src/Strings/Shared.antt =====
-- c/ystring.c: `str_concat` on strings by their addresses, which may share their blocks.
use yruntime.Base.{
  ℕ, ◌+◌, ◌%◌, ◌^◌, ◌≤◌, ◌<◌, ◌≡◌, ◌⊎◌, inl, ◌∙◌, List, ◌++◌, ltb, if◌then◌else◌, length, arith,
}
use mathlib.Core.Path.{ap₂}
use yruntime.Strings.Code.{grown_capacity}
use yruntime.Strings.Memory.{
  Memory, set_byte, read_range, write_range, read_range-ext, read_range-append, write_range_outside,
  read_range-write_range,
}

-- `_ystring`, with the address that `data` is.
pub record Pointed : Type 0 where
  pub data' : ℕ
  pub len : ℕ
  pub capacity : ℕ

abbrev pub text_of : Memory → Pointed → List ℕ
text_of mem y = read_range mem y.data' y.len

-- `place` is the address that `GC_malloc` returns.
unfoldable pub str_grow_at : Memory → Pointed → ℕ → ℕ → Memory × Pointed
str_grow_at mem self min place = (
  write_range mem place (text_of mem self),
  record { data' = place; len = self.len; capacity = grown_capacity self.len min },
)

unfoldable pub str_concat_at : Memory → Pointed → Pointed → ℕ → Memory × Pointed
unfolding str_grow_at
str_concat_at mem left right place =
    let min = ((left.len + right.len) % 2 ^ 64 + 1) % 2 ^ 64 in
    let (grown, left') =
      if ltb left.capacity min then str_grow_at mem left min place else (mem, left) in
    let copied = write_range grown (left'.data' + left'.len) (text_of grown right) in
    (
      set_byte copied (left'.data' + min) 0,
      record {
        data' = left'.data';
        len = (left'.len + right.len) % 2 ^ 64;
        capacity = left'.capacity;
      },
    )

-- The bytes that `str_concat` writes: behind the text of the left string, or from the start of the
-- new block on where the string has to grow, up to two bytes behind the new text.
abbrev pub write_start : Pointed → Pointed → ℕ → ℕ
write_start left right place =
    if ltb left.capacity (left.len + right.len + 1) then place else left.data' + left.len

abbrev pub write_end : Pointed → Pointed → ℕ → ℕ
write_end left right place =
    (if ltb left.capacity (left.len + right.len + 1) then place else left.data')
    + (left.len + right.len + 2)

abbrev pub IsOutside : ℕ → ℕ → Pointed → Type 0
IsOutside start end' y = (y.data' + y.len ≤ start) ⊎ (end' ≤ y.data')

-- What `str_concat` does behind the growth, to a string of so many bytes.
module _ (mem : Memory) (base n : ℕ) (t : List ℕ) where
  unfoldable pub written : Memory
  written = set_byte (write_range mem (base + n) t) (base + (n + length t + 1)) 0

  pub written_outside :
      (x : ℕ) → (x < base + n) ⊎ (base + (n + length t + 2) ≤ x) → written x ≡ mem x
  unfolding written
  written_outside x out = ground (arith, write_range_outside mem (base + n) t x)

  pub read_range-written : read_range written base (n + length t) ≡ read_range mem base n ++ t
  unfolding written
  read_range-written =
      let copied = write_range mem (base + n) t in
      read_range-append written base n (length t)
      ∙ ap₂ (λ s r. s ++ r)
          (read_range-ext written mem base n (λ x low high. written_outside x (inl high)))
          (read_range-ext written copied (base + n) (length t) (λ x low high. ground arith)
            ∙ read_range-write_range mem (base + n) t)
