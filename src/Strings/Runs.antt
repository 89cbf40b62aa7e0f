-- ===== src/Strings/Runs.antt =====
-- c/ystring.c: two names appended, with room, and a text that fills its block.
use yruntime.Base.{
  ℕ, ◌≡◌, ◌⊎◌, refl, List, [], ◌∷◌, ◌++◌, none, some, length-replicate, replicate, zero, arith,
  c_string,
}
use yruntime.Strings.Code.{YString, str_empty}
use yruntime.Strings.Concat.{Text}
use yruntime.Strings.Build.{str_empty-Text, concat_c_strs, joined_texts}
use yruntime.Strings.Chain.{capacity_after, text_sizes, concat_c_strs-capacity_after}

abbrev zeroed : ℕ → List ℕ
zeroed bytes = replicate bytes 0

abbrev class_names : List (List ℕ)
class_names = (b'_' ∷ b'Y' ∷ []) ∷ (b'4' ∷ b's' ∷ b'e' ∷ b'l' ∷ b'f' ∷ 0 ∷ []) ∷ []

-- The first block has room for both.
names_fit : capacity_after 0 0 (text_sizes class_names) ≡ some 100
unfolding capacity_after c_string
names_fit = refl

-- A text of 99 bytes fills the first block.
text_fills : capacity_after 0 0 (99 ∷ []) ≡ none
unfolding capacity_after
text_fills = refl

concat_c_strs-capacity_after_example :
    ((capacity_after 0 0 (text_sizes class_names) ≡ none)
      × (concat_c_strs zeroed str_empty class_names ≡ none))
    ⊎ ((cap : ℕ) × (capacity_after 0 0 (text_sizes class_names) ≡ some cap)
        × ((y : YString) × (concat_c_strs zeroed str_empty class_names ≡ some y)
            × (y.capacity ≡ cap)
            × Text y ([] ++ joined_texts class_names)))
unfolding joined_texts c_string
concat_c_strs-capacity_after_example =
    concat_c_strs-capacity_after zeroed str_empty [] class_names (λ n. length-replicate n zero)
      str_empty-Text (omega arith)
