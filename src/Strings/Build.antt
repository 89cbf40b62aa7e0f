-- ===== src/Strings/Build.antt =====
-- c/ystring.c: the strings that are made from C strings and from what `snprintf` prints, and what
-- a sequence of calls builds.
use yruntime.Base.{
  ℕ, drop-all, append-nil, ◌<◌, ◌≤◌, ◌≡◌, refl, sym, drop, length-drop, List, [], ◌∷◌, ◌++◌,
  append_assoc, append-nil, Option, none, some, ◌>>=◌, length, length-append, c_string, arith,
}
use yruntime.Utf.Code.{write_bytes}
use yruntime.Utf.Arrays.{write_bytes-append}
use yruntime.Strings.Code.{
  YString, grown_capacity, str_grow, str_concat, str_create_len, str_copy_len, str_empty, str_fit,
  read_bytes,
}
use yruntime.Strings.Concat.{Text, read_bytes-Text}

-- `none` is a pointer that is NULL. Of a C string, the bytes in front of its NUL can be used.
abbrev pub str_create : Option (List ℕ) → YString
str_create none = record { data' = []; len = 0; capacity = 0 }
str_create (some data') = str_create_len (c_string data') (length (c_string data'))

module _ (gc_malloc : ℕ → List ℕ) where
  abbrev pub str_concat_c_str : YString → Option (List ℕ) → Option YString
  str_concat_c_str left data' = str_concat gc_malloc left (str_create data')

  abbrev pub str_copy : List ℕ → Option YString
  str_copy data' = str_copy_len gc_malloc data' (length (c_string data'))

  -- What `str_from_int`, `str_from_char` and `str_from_ptr` do with the text that `snprintf` gives.
  unfoldable pub str_printed : List ℕ → Option YString
  str_printed text = do
    ret ← str_grow gc_malloc str_empty (length text)
    block ← write_bytes ret.data' 0 (text ++ 0 ∷ [])
    some (record { data' = block; len = length text; capacity = ret.capacity })

  abbrev pub str_from_char : ℕ → Option YString
  str_from_char value = str_printed (value ∷ [])

  -- `sprintf_p` is the text of a pointer in the format `%p`.
  abbrev pub str_from_ptr : (ℕ → List ℕ) → ℕ → Option YString
  str_from_ptr sprintf_p value = str_printed (sprintf_p value)

  -- One call of `str_concat_c_str` behind the other, as `demangle_symbol` and the stack trace do.
  unfoldable pub concat_c_strs : YString → List (List ℕ) → Option YString
  concat_c_strs left [] = some left
  concat_c_strs left (data' ∷ rest) = do
    left' ← str_concat_c_str left (some data')
    concat_c_strs left' rest

unfoldable pub joined_texts : List (List ℕ) → List ℕ
joined_texts [] = []
joined_texts (data' ∷ rest) = c_string data' ++ joined_texts rest

pub str_empty-Text : Text str_empty []
str_empty-Text = record { spare = []; bytes = refl; size = refl; room = refl }

pub str_create_len-Text : (text : List ℕ) → Text (str_create_len text (length text)) text
str_create_len-Text text = record {
  spare = [];
  bytes = sym (append-nil text);
  size = refl;
  room = refl;
}

-- With blocks of the size that is asked for: a printed text of fewer than 100 bytes is the text of
-- the string that is made from it.
pub str_printed-Text :
    (gc_malloc : ℕ → List ℕ) (text : List ℕ)
    → ((n : ℕ) → length (gc_malloc n) ≡ n)
    → length text < 100
    → (y : YString) × (str_printed gc_malloc text ≡ some y) × Text y text
unfolding str_printed str_grow read_bytes write_bytes
str_printed-Text gc_malloc text size small =
    let block : grown_capacity 0 (length text) ≡ 100 = ground arith in
    let ended = length-append text (0 ∷ []) in
    let rest = drop (length (text ++ 0 ∷ [])) (gc_malloc 100) in
    let fits : length (text ++ 0 ∷ []) ≤ length (gc_malloc 100) = omega (arith, size 100) in
    let written = write_bytes-append (text ++ 0 ∷ []) [] (gc_malloc 100) fits in
    (
      record { data' = (text ++ 0 ∷ []) ++ rest; len = length text; capacity = 100 },
      rw (block, written) refl,
      record {
        spare = 0 ∷ rest;
        bytes = append_assoc text (0 ∷ []) rest;
        size = refl;
        room = omega (
          arith,
          length-append (text ++ 0 ∷ []) rest,
          length-drop (length (text ++ 0 ∷ [])) (gc_malloc 100),
          size 100,
        );
      },
    )

-- With blocks of the size that is asked for: `str_fit` gives a string whose block holds the text
-- and nothing behind it.
pub str_fit-Text :
    (gc_malloc : ℕ → List ℕ) (y : YString) (text : List ℕ)
    → ((n : ℕ) → length (gc_malloc n) ≡ n)
    → Text y text
    → str_fit gc_malloc y ≡ some (str_create_len text (length text))
unfolding str_copy_len
str_fit-Text gc_malloc y text size shown =
    let block = gc_malloc (length text) in
    let room : length text ≤ length block = omega (arith, size (length text)) in
    let written = write_bytes-append text [] block room in
    let nothing = drop-all (length text) block (omega (arith, size (length text))) in
    let same : y.len ≡ length text = shown.size in
    rw (read_bytes-Text y text shown, same, written, nothing, append-nil text) refl
