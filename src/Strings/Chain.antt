-- ===== src/Strings/Chain.antt =====
-- c/ystring.c: any sequence of calls of `str_concat_c_str`, by the sizes of the texts alone.
use mathlib.Core.Path.{subst}
use yruntime.Base.{
  ℕ, ◌+◌, ◌^◌, ◌<◌, ◌≡◌, ◌⊎◌, inl, inr, refl, sym, ◌∙◌, List, [], ◌∷◌, ◌++◌, append_assoc,
  append-nil, Option, none, some, true, false, ltb, lt→ltb, le→ltb_false, if◌then◌else◌, length,
  length-append, map, c_string, arith,
}
use yruntime.Strings.Code.{YString, grown_capacity, str_create_len}
use yruntime.Strings.Concat.{Text, concat_capacity, str_concat-Text}
use yruntime.Strings.Build.{str_create_len-Text, concat_c_strs, joined_texts}

-- The capacity behind appends of texts of these sizes to a string of that capacity and length;
-- nothing where the block of one of the appends is full with its text and one byte.
unfoldable pub capacity_after : ℕ → ℕ → List ℕ → Option ℕ
capacity_after capacity len [] = some capacity
capacity_after capacity len (n ∷ rest) =
    let min = len + n + 1 in
    let grown = if ltb capacity min then grown_capacity len min else capacity in
    let next = capacity_after grown (len + n) rest in if ltb min grown then next else none

abbrev pub text_sizes : List (List ℕ) → List ℕ
text_sizes texts = map (λ t. length (c_string t)) texts

-- With blocks of the size that is asked for, and texts of fewer than 2^61 bytes together: calls of
-- `str_concat_c_str` one behind the other, from any string on, do what the sizes of the texts say.
-- Either they give a string of the capacity that follows from them, which shows all the texts one
-- behind the other; or one of the calls fills its block, and writes the final NUL behind it.
pub concat_c_strs-capacity_after :
    (gc_malloc : ℕ → List ℕ) (left : YString) (s : List ℕ) (texts : List (List ℕ))
    → ((n : ℕ) → length (gc_malloc n) ≡ n)
    → Text left s
    → length s + length (joined_texts texts) < 2 ^ 61
    → ((capacity_after left.capacity (length s) (text_sizes texts) ≡ none)
        × (concat_c_strs gc_malloc left texts ≡ none))
      ⊎ ((cap : ℕ) × (capacity_after left.capacity (length s) (text_sizes texts) ≡ some cap)
          × ((y : YString) × (concat_c_strs gc_malloc left texts ≡ some y)
              × (y.capacity ≡ cap)
              × Text y (s ++ joined_texts texts)))
unfolding concat_c_strs joined_texts capacity_after
concat_c_strs-capacity_after gc_malloc left s [] size shown small =
    inr (left.capacity, refl, (left, refl, refl, subst (Text left) (sym (append-nil s)) shown))
concat_c_strs-capacity_after gc_malloc left s (data' ∷ rest) size shown small =
    let t = c_string data' in
    let sizes = length-append t (joined_texts rest) in
    let both = length-append s t in
    let min = length s + length t + 1 in
    let grown = concat_capacity left s t in
    elim (str_concat-Text gc_malloc left (str_create_len t (length t)) s t size shown
      (str_create_len-Text t) (omega arith)) [
        | inl (wide, (mid, run, cap, shown')) ↦
            let room : ltb min grown ≡ true = lt→ltb _ _ wide in
            let after : capacity_after mid.capacity (length (s ++ t)) (text_sizes rest)
                ≡ capacity_after grown (length s + length t) (text_sizes rest) =
              rw (cap, both) refl in
            elim (concat_c_strs-capacity_after gc_malloc mid (s ++ t) rest size shown'
              (omega arith)) [
                | inl (full, stops) ↦ inl (rw room (sym after ∙ full), rw run stops)
                | inr (c, sized, (y, run', cap', shown'')) ↦ inr (
                  c,
                  rw room (sym after ∙ sized),
                  (
                    y,
                    rw run run',
                    cap',
                    subst (Text y) (append_assoc s t (joined_texts rest)) shown'',
                  ),
                )
              ]
        | inr (tight, run) ↦
            let full : ltb min grown ≡ false = le→ltb_false _ _ (omega arith) in
            inl (rw full refl, rw run refl)
      ]
