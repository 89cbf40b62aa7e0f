-- ===== src/Trace/Path.antt =====
-- c/stacktrace.c: `_yrt_resolve_path` and the file name in a line of `backtrace_symbols`.
use yruntime.Base.{
  ℕ, zero, suc, ◌+◌, List, [], ◌∷◌, ◌++◌, Option, none, some, Bool, not, ◌&&◌, ltb, ◌==◌,
  if◌then◌else◌, ◌>>=◌, length,
}

-- The end of `strtok`: the bytes up to a colon or a NUL, and what stands behind the colon. `none`
-- is a read past the last byte.
unfoldable pub end_token : List ℕ → Option (List ℕ × List ℕ)
end_token [] = none
end_token (c ∷ rest) =
    let more = end_token rest in
    if c == 0
    then some ([], c ∷ rest)
    else if c == b':'
    then some ([], rest)
    else (do (token, behind) ← more; some (c ∷ token, behind))

-- `strtok (…, ":")`: colons are skipped, and a NUL ends the tokens.
unfoldable pub strtok : List ℕ → Option (Option (List ℕ × List ℕ))
strtok [] = none
strtok (c ∷ rest) =
    let more = strtok rest in
    if c == b':'
    then more
    else if c == 0
    then some none
    else (do token ← end_token (c ∷ rest); some (some token))

-- `access (…, F_OK) == 0` is `exists`.
module _ (exists : List ℕ → Bool) (filename : List ℕ) where
  -- A directory of the path is tried where the name fits 255 bytes.
  abbrev pub candidate : List ℕ → List ℕ
  candidate dir = dir ++ b'/' ∷ filename

  abbrev pub is_found : List ℕ → Bool
  is_found dir = ltb (length dir + length filename + 2) 255 && exists (candidate dir)

  -- The loop over the tokens, with fuel; each round takes a byte at least.
  unfoldable pub path_loop : ℕ → List ℕ → Option (Option (List ℕ))
  path_loop zero rest = none
  path_loop (suc fuel) rest = do
    token ← strtok rest
    elim token [
      | none ↦ some none
      | some (dir, behind) ↦
          let next = path_loop fuel behind in
          if is_found dir then some (some (candidate dir)) else next
    ]

  -- `path` are the bytes of the variable `PATH`. They are copied without their NUL, and `behind`
  -- are the bytes that memory holds behind the copy.
  unfoldable pub resolve_path : List ℕ → List ℕ → Option (Option (List ℕ))
  resolve_path path behind =
      if exists filename
      then some (some filename)
      else path_loop (suc (length (path ++ behind))) (path ++ behind)

-- The copy of the bytes in front of a parenthesis to the array `filename` of 245 bytes, with its
-- NUL; `none` is a write past it, or a read past the message.
unfoldable pub message_filename : List ℕ → ℕ → Option (List ℕ)
message_filename [] p = none
message_filename (c ∷ rest) p =
    let more = message_filename rest (p + 1) in
    if not (ltb p 245)
    then none
    else if c == b'('
    then some []
    else if c == 0
    then some []
    else (do name ← more; some (c ∷ name))
