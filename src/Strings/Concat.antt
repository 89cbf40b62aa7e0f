-- ===== src/Strings/Concat.antt =====
-- c/ystring.c: `str_concat` on the contents of strings, and the byte that it ends them with.
use yruntime.Base.{
  ℕ, ◌+◌, ◌%◌, ◌^◌, ◌≤◌, ◌<◌, ◌≡◌, ◌⊎◌, refl, ap, sym, ◌∙◌, List, [], ◌∷◌, ◌++◌, append_assoc,
  append-nil, none, some, true, ltb, leb, if◌then◌else◌, ◌>>=◌, drop, length, length-append,
  length-drop, take-append_length, le→leb, le→ltb_false, Bool-cases, inl, inr, arith,
}
use yruntime.Utf.Code.{write_bytes}
use yruntime.Utf.Arrays.{write_bytes-append}
use yruntime.Strings.Code.{YString, read_bytes, grown_capacity, str_grow, str_concat}

-- A string that shows a text and owns so many bytes as its capacity says.
pub record Text (y : YString) (s : List ℕ) : Type 0 where
  pub spare : List ℕ
  pub bytes : y.data' ≡ s ++ spare
  pub size : y.len ≡ length s
  pub room : length y.data' ≡ y.capacity

pub read_bytes-Text : (y : YString) (s : List ℕ) → Text y s → read_bytes y.data' y.len ≡ some s
unfolding read_bytes
read_bytes-Text y s t =
    let inside : leb (length s) (length (s ++ t.spare)) ≡ true =
      le→leb _ _ (omega (arith, length-append s t.spare)) in
    rw (read_bytes, t.bytes, t.size, inside) (ap some (take-append_length s t.spare))

grown_capacity-bounds :
    (len min : ℕ) → len < 2 ^ 62 → (len ≤ grown_capacity len min) × (min ≤ grown_capacity len min)
grown_capacity-bounds len min h = (ground arith, ground arith)

-- The NUL goes one byte behind the place that follows the text.
write_nul-inside :
    (text spare : List ℕ)
    → length text + 1 < length (text ++ spare)
    → (spare' : List ℕ) × (write_bytes (text ++ spare) (length text + 1) (0 ∷ [])
        ≡ some (text ++ spare'))
      × (length (text ++ spare') ≡ length (text ++ spare))
write_nul-inside text [] h = absurd (omega (arith, ap length (append-nil text)))
write_nul-inside text (x ∷ []) h = absurd (omega (arith, length-append text (x ∷ [])))
write_nul-inside text (x ∷ y ∷ rest) h =
    let place : length text + 1 ≡ length (text ++ x ∷ []) =
      omega (arith, length-append text (x ∷ [])) in
    let regroup = sym (append_assoc text (x ∷ []) (y ∷ rest)) in
    (
      x ∷ 0 ∷ rest,
      rw (place, regroup)
          (write_bytes-append (0 ∷ []) (text ++ x ∷ []) (y ∷ rest) (omega arith)
            ∙ ap some (append_assoc text (x ∷ []) (0 ∷ rest))),
      omega (arith, length-append text (x ∷ y ∷ rest), length-append text (x ∷ 0 ∷ rest)),
    )

write_nul-outside :
    (buffer : List ℕ) (min : ℕ) → length buffer ≤ min → write_bytes buffer min (0 ∷ []) ≡ none
unfolding write_bytes
write_nul-outside buffer min h = rw (le→ltb_false _ _ h) refl

-- The capacity of the block that `str_concat` writes to.
abbrev pub concat_capacity : YString → List ℕ → List ℕ → ℕ
concat_capacity left s t =
    let min = length s + length t + 1 in
    if ltb left.capacity min then grown_capacity (length s) min else left.capacity

module _ (gc_malloc : ℕ → List ℕ) (gc_malloc-size : (n : ℕ) → length (gc_malloc n) ≡ n) where
  str_grow-Text :
      (y : YString) (s : List ℕ) (min : ℕ)
      → Text y s
      → length s < 2 ^ 62
      → (g : YString) × (str_grow gc_malloc y min ≡ some g)
        × Text g s
        × (g.capacity ≡ grown_capacity (length s) min)
  unfolding str_grow
  str_grow-Text y s min t small =
      let cap = grown_capacity (length s) min in
      let block = gc_malloc cap in
      let fits : length s ≤ length block =
        omega (arith, (grown_capacity-bounds (length s) min small).0, gc_malloc-size cap) in
      let written = write_bytes-append s [] block fits in
      let same : y.len ≡ length s = t.size in
      (
        record { data' = s ++ drop (length s) block; len = length s; capacity = cap },
        rw (read_bytes-Text y s t, same, written) refl,
        record {
          spare = drop (length s) block;
          bytes = refl;
          size = refl;
          room = omega (
            arith,
            length-append s (drop (length s) block),
            length-drop (length s) block,
            gc_malloc-size cap,
          );
        },
        refl,
      )

  -- What `str_concat` does behind the growth, on a left operand with room for the result.
  concat_behind :
      (g right : YString) (s t : List ℕ)
      → Text g s
      → Text right t
      → length s + length t < g.capacity
      → (spare : List ℕ) × (read_bytes right.data' right.len ≡ some t)
        × (write_bytes g.data' g.len t ≡ some ((s ++ t) ++ spare))
        × (length ((s ++ t) ++ spare) ≡ g.capacity)
  concat_behind g right s t tg tr fits =
      let rest = drop (length t) tg.spare in
      let size = length-append s tg.spare in
      let whole : length (s ++ tg.spare) ≡ g.capacity = sym (ap length tg.bytes) ∙ tg.room in
      let copied = write_bytes-append t s tg.spare (omega arith) in
      (
        rest,
        read_bytes-Text right t tr,
        rw (tg.bytes, tg.size) (copied ∙ ap some (sym (append_assoc s t rest))),
        omega (
          arith,
          length-append s t,
          length-append (s ++ t) rest,
          length-drop (length t) tg.spare,
        ),
      )

  concat_left :
      (left : YString) (s t : List ℕ)
      → Text left s
      → length s + length t < 2 ^ 61
      → (g : YString) × ((if ltb left.capacity (length s + length t + 1)
            then str_grow gc_malloc left (length s + length t + 1)
            else some left)
          ≡ some g)
        × Text g s
        × (g.capacity ≡ concat_capacity left s t)
        × (length s + length t < g.capacity)
  concat_left left s t tl small = elim (Bool-cases (ltb left.capacity (length s + length t + 1))) [
    | inl short ↦
        let min = length s + length t + 1 in
        let (g, grown, tg, cap) = str_grow-Text left s min tl (omega arith) in
        let bounds = grown_capacity-bounds (length s) min (omega arith) in
        (g, rw (short, grown) refl, tg, rw short cap, omega (arith, bounds.1))
    | inr long ↦ (left, rw long refl, tl, rw long refl, ground arith)
  ]

-- `str_concat` from the outcome of its steps.
str_concat_steps :
    (gc_malloc : ℕ → List ℕ) (left right g : YString) (text copied : List ℕ) (min : ℕ)
    → ((left.len + right.len) % 2 ^ 64 + 1) % 2 ^ 64 ≡ min
    → (if ltb left.capacity min then str_grow gc_malloc left min else some left) ≡ some g
    → read_bytes right.data' right.len ≡ some text
    → write_bytes g.data' g.len text ≡ some copied
    → str_concat gc_malloc left right ≡ (
        write_bytes copied min (0 ∷ []) >>= λ ended.
        some (record { data' = ended; len = (g.len + right.len) % 2 ^ 64; capacity = g.capacity }))
unfolding str_concat
str_concat_steps gc_malloc left right g text copied min minimum grown read written =
    rw (str_concat, minimum, grown, read, written) refl

-- With blocks of the size that is asked for, and texts of fewer than 2^61 bytes together, there are
-- two cases: the block of `str_concat` has two bytes more than the texts at least, and it gives a
-- string of that block that shows the two texts, one behind the other; or the block has one byte
-- more than they, and it writes the final NUL behind the end of the block.
pub str_concat-Text :
    (gc_malloc : ℕ → List ℕ) (left right : YString) (s t : List ℕ)
    → ((n : ℕ) → length (gc_malloc n) ≡ n)
    → Text left s
    → Text right t
    → length s + length t < 2 ^ 61
    → ((length s + length t + 1 < concat_capacity left s t)
        × ((y : YString) × (str_concat gc_malloc left right ≡ some y)
            × (y.capacity ≡ concat_capacity left s t)
            × Text y (s ++ t)))
      ⊎ ((concat_capacity left s t ≡ length s + length t + 1)
          × (str_concat gc_malloc left right ≡ none))
str_concat-Text gc_malloc left right s t size tl tr small =
    let (g, grown, tg, cap, fits) = concat_left gc_malloc size left s t tl small in
    let (spare, read, copied, whole) = concat_behind gc_malloc size g right s t tg tr fits in
    let both = length-append s t in
    let minimum : ((left.len + right.len) % 2 ^ 64 + 1) % 2 ^ 64 ≡ length s + length t + 1 =
      omega (arith, tl.size, tr.size) in
    let place : length s + length t + 1 ≡ length (s ++ t) + 1 = omega arith in
    let steps =
      str_concat_steps gc_malloc left right g t ((s ++ t) ++ spare) (length s + length t + 1)
        minimum grown read copied in
    elim (Bool-cases (ltb (length s + length t + 1) g.capacity)) [
      | inl wide ↦
          let room : length s + length t + 1 < g.capacity = ground arith in
          let (spare', ended, whole') = write_nul-inside (s ++ t) spare (omega arith) in
          let ended' = ap (λ n. write_bytes ((s ++ t) ++ spare) n (0 ∷ [])) place ∙ ended in
          inl (
            omega arith,
            (
              record {
                data' = (s ++ t) ++ spare';
                len = (g.len + right.len) % 2 ^ 64;
                capacity = g.capacity;
              },
              steps ∙ rw ended' refl,
              cap,
              record {
                spare = spare';
                bytes = refl;
                size = omega (arith, tg.size, tr.size);
                room = whole' ∙ whole;
              },
            ),
          )
      | inr tight ↦
          let full : g.capacity ≤ length s + length t + 1 = ground arith in
          let outside =
            write_nul-outside ((s ++ t) ++ spare) (length s + length t + 1) (omega arith) in
          inr (omega arith, steps ∙ rw outside refl)
    ]
