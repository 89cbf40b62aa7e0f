-- ===== src/Trace/Message.antt =====
-- c/stacktrace.c: the array of 245 bytes that takes the file name of a frame.
use yruntime.Base.{
  ℕ, ◌+◌, ◌≤◌, ◌≡◌, ◌≢◌, List, [], ◌∷◌, ◌++◌, none, some, ltb, if◌then◌else◌, length, All,
  Bool-cases, inl, inr, arith,
}
use yruntime.Trace.Path.{message_filename}

abbrev pub IsName : List ℕ → Type 0
IsName name = All (λ c. (c ≢ b'(') × (c ≢ 0)) name

message_filename-from :
    (name rest : List ℕ) (p : ℕ)
    → p ≤ 245
    → IsName name
    → message_filename (name ++ b'(' ∷ rest) p
      ≡ (if ltb (p + length name) 245 then some name else none)
unfolding message_filename
message_filename-from [] rest p h k = ground arith
message_filename-from (c ∷ name) rest p h ((open_paren, nul), k) = elim (Bool-cases (ltb p 245)) [
  | inl e ↦ ground (arith, message_filename-from name rest (p + 1) (ground (arith, e)) k)
  | inr e ↦ ground (arith, e)
]

-- A file name without a parenthesis and a NUL, in front of a parenthesis, is read as it is if it
-- has at most 244 bytes; a longer one is written past the end of the array.
pub message_filename-fits :
    (name rest : List ℕ)
    → IsName name
    → message_filename (name ++ b'(' ∷ rest) 0 ≡ (if ltb (length name) 245 then some name else none)
message_filename-fits name rest h =
    ground (arith, message_filename-from name rest 0 (omega arith) h)
