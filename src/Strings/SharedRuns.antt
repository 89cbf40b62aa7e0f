-- ===== src/Strings/SharedRuns.antt =====
-- c/ystring.c: two appends to the string `ab` in a block of 100 bytes.
use yruntime.Base.{◌≡◌, refl, [], ◌∷◌, ◌++◌, arith}
use yruntime.Strings.Memory.{Memory, write_range}
use yruntime.Strings.Shared.{Pointed, text_of, str_concat_at}
use yruntime.Strings.Sharing.{str_concat_at_texts, str_concat_at_overwrites}

abbrev texts : Memory
texts =
    write_range (write_range (write_range (λ x. 0) 1000 (b'a' ∷ b'b' ∷ [])) 2000 (b'c' ∷ b'd' ∷ []))
      3000 (b'e' ∷ b'f' ∷ [])

abbrev ab : Pointed
ab = record { data' = 1000; len = 2; capacity = 100 }

-- A string that shares the block of `ab`.
abbrev only_a : Pointed
only_a = record { data' = 1000; len = 1; capacity = 1 }

abbrev cd : Pointed
cd = record { data' = 2000; len = 2; capacity = 2 }

abbrev ef : Pointed
ef = record { data' = 3000; len = 2; capacity = 2 }

str_concat_at_texts_example :
    (text_of (str_concat_at texts ab cd 0).0 (str_concat_at texts ab cd 0).1
      ≡ text_of texts ab ++ text_of texts cd)
    × (text_of (str_concat_at texts ab cd 0).0 only_a ≡ text_of texts only_a)
str_concat_at_texts_example =
    str_concat_at_texts texts ab cd only_a 0 (omega arith) (ground arith) (ground arith)
      (ground arith)

str_concat_at_overwrites_example :
    let (mem', first) = str_concat_at texts ab cd 0 in
    let (mem'', second) = str_concat_at mem' ab ef 0 in
    (text_of mem' first ≡ text_of texts ab ++ text_of texts cd)
    × (text_of mem'' first ≡ text_of texts ab ++ text_of texts ef)
    × (text_of mem'' second ≡ text_of texts ab ++ text_of texts ef)
str_concat_at_overwrites_example =
    str_concat_at_overwrites texts ab cd ef 0 0 (omega arith) (omega arith) refl (ground arith)
      (ground arith)
