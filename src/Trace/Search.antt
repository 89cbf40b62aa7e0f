-- ===== src/Trace/Search.antt =====
-- c/stacktrace.c: `_yrt_resolve_path` as a search through the directories of a path.
use yruntime.Base.{
  ℕ, zero, suc, ◌<◌, ◌≡◌, ◌≢◌, refl, ap, sym, ◌∙◌, List, [], ◌∷◌, ◌++◌, append_assoc, append-nil,
  Option, none, some, Bool, true, false, ◌==◌, if◌then◌else◌, ◌>>=◌, length, length-append, All,
  Bool-cases, inl, inr, arith,
}
use yruntime.Trace.Path.{end_token, strtok, candidate, is_found, path_loop, resolve_path}

abbrev pub IsDirectory : List ℕ → Type 0
IsDirectory dir = All (λ c. (c ≢ b':') × (c ≢ 0)) dir

-- Directories with colons between them.
abbrev pub path_text : List (List ℕ) → List ℕ
path_text [] = []
path_text (d ∷ []) = d
path_text (d ∷ e ∷ es) = d ++ b':' ∷ path_text (e ∷ es)

path_text-more :
    (d : List ℕ) (ds : List (List ℕ)) (last : List ℕ)
    → path_text (d ∷ (ds ++ last ∷ [])) ≡ d ++ b':' ∷ path_text (ds ++ last ∷ [])
path_text-more d [] last = refl
path_text-more d (e ∷ es) last = refl

end_token-colon :
    (dir rest : List ℕ) → IsDirectory dir → end_token (dir ++ b':' ∷ rest) ≡ some (dir, rest)
unfolding end_token
end_token-colon [] rest h = refl
end_token-colon (c ∷ dir) rest ((colon, nul), h) =
    let no_nul : (c == 0) ≡ false = ground arith in
    let no_colon : (c == b':') ≡ false = ground arith in
    rw (no_nul, no_colon, end_token-colon dir rest h) refl

end_token-nul :
    (dir rest : List ℕ) → IsDirectory dir → end_token (dir ++ 0 ∷ rest) ≡ some (dir, 0 ∷ rest)
unfolding end_token
end_token-nul [] rest h = refl
end_token-nul (c ∷ dir) rest ((colon, nul), h) =
    let no_nul : (c == 0) ≡ false = ground arith in
    let no_colon : (c == b':') ≡ false = ground arith in
    rw (no_nul, no_colon, end_token-nul dir rest h) refl

end_token-open : (dir : List ℕ) → IsDirectory dir → end_token dir ≡ none
unfolding end_token
end_token-open [] h = refl
end_token-open (c ∷ dir) ((colon, nul), h) =
    let no_nul : (c == 0) ≡ false = ground arith in
    let no_colon : (c == b':') ≡ false = ground arith in
    rw (no_nul, no_colon, end_token-open dir h) refl

-- A token begins with a byte that is no colon and no NUL.
strtok-letter :
    (c : ℕ) (rest : List ℕ)
    → c ≢ b':'
    → c ≢ 0
    → strtok (c ∷ rest) ≡ (end_token (c ∷ rest) >>= λ token. some (some token))
unfolding strtok
strtok-letter c rest colon nul =
    let no_nul : (c == 0) ≡ false = ground arith in
    let no_colon : (c == b':') ≡ false = ground arith in rw (no_colon, no_nul) refl

module _ (exists : List ℕ → Bool) (filename : List ℕ) where
  -- The first directory that is not empty and holds the file, with the file's name.
  abbrev pub first_found : List (List ℕ) → Option (List ℕ)
  first_found [] = none
  first_found ([] ∷ ds) = first_found ds
  first_found ((c ∷ cs) ∷ ds) =
      if is_found exists filename (c ∷ cs)
      then some (candidate exists filename (c ∷ cs))
      else first_found ds

  -- A round on a directory that is not empty.
  path_loop-step :
      (fuel c : ℕ) (cs text behind : List ℕ)
      → IsDirectory (c ∷ cs)
      → end_token (c ∷ text) ≡ some (c ∷ cs, behind)
      → path_loop exists filename (suc fuel) (c ∷ text) ≡ (
          if is_found exists filename (c ∷ cs)
          then some (some (candidate exists filename (c ∷ cs)))
          else path_loop exists filename fuel behind)
  unfolding path_loop
  path_loop-step fuel c cs text behind ((colon, nul), h) token =
      rw (strtok-letter c text colon nul, token) refl

  path_loop-colon :
      (fuel : ℕ) (text : List ℕ)
      → path_loop exists filename (suc fuel) (b':' ∷ text)
        ≡ path_loop exists filename (suc fuel) text
  unfolding path_loop strtok
  path_loop-colon fuel text = refl

  -- What a round does with its answer.
  some-choice :
      (found : Bool) (here : List ℕ) (next : Option (List ℕ))
      → (if found then some (some here) else some next) ≡ some (if found then some here else next)
  some-choice true here next = refl
  some-choice false here next = refl

  path_loop-first :
      (fuel : ℕ) (dirs : List (List ℕ)) (behind : List ℕ)
      → All IsDirectory dirs
      → length (path_text dirs ++ 0 ∷ behind) < fuel
      → path_loop exists filename fuel (path_text dirs ++ 0 ∷ behind) ≡ some (first_found dirs)
  path_loop-first zero dirs behind h k = absurd (omega arith)
  path_loop-first (suc fuel) [] behind h k = unfold path_loop in unfold strtok in refl
  path_loop-first (suc fuel) ([] ∷ []) behind h k = unfold path_loop in unfold strtok in refl
  path_loop-first (suc fuel) ([] ∷ e ∷ es) behind (hd, h) k =
      path_loop-colon fuel (path_text (e ∷ es) ++ 0 ∷ behind)
      ∙ path_loop-first (suc fuel) (e ∷ es) behind h (omega arith)
  path_loop-first (suc fuel) ((c ∷ cs) ∷ []) behind (hd, h) k =
      let token = end_token-nul (c ∷ cs) behind hd in
      let rest = path_loop-first fuel [] behind tt (omega (arith, length-append cs (0 ∷ behind))) in
      path_loop-step fuel c cs (cs ++ 0 ∷ behind) (0 ∷ behind) hd token
      ∙ rw rest (some-choice (is_found exists filename (c ∷ cs)) _ none)
  path_loop-first (suc fuel) ((c ∷ cs) ∷ e ∷ es) behind (hd, h) k =
      let text = path_text (e ∷ es) ++ 0 ∷ behind in
      let split = append_assoc (c ∷ cs) (b':' ∷ path_text (e ∷ es)) (0 ∷ behind) in
      let token = end_token-colon (c ∷ cs) text hd in
      let rest =
        path_loop-first fuel (e ∷ es) behind h
          (omega (arith, ap length split, length-append (c ∷ cs) (b':' ∷ text))) in
      ap (path_loop exists filename (suc fuel)) split
      ∙ path_loop-step fuel c cs (cs ++ b':' ∷ text) text hd token
      ∙ rw rest (some-choice (is_found exists filename (c ∷ cs)) _ (first_found (e ∷ es)))

  -- Without the NUL, the last directory is not told from what follows it.
  path_loop-open :
      (fuel : ℕ) (dirs : List (List ℕ)) (last : List ℕ)
      → All IsDirectory dirs
      → IsDirectory last
      → first_found dirs ≡ none
      → path_loop exists filename fuel (path_text (dirs ++ last ∷ [])) ≡ none
  path_loop-open zero dirs last h hl missing = unfold path_loop in refl
  path_loop-open (suc fuel) [] [] h hl missing = unfold path_loop in unfold strtok in refl
  path_loop-open (suc fuel) [] (c ∷ cs) h hl missing =
      unfold path_loop in rw (strtok-letter c cs (hl.0.0) (hl.0.1), end_token-open (c ∷ cs) hl) refl
  path_loop-open (suc fuel) ([] ∷ []) last (hd, h) hl missing =
      path_loop-colon fuel last ∙ path_loop-open (suc fuel) [] last tt hl refl
  path_loop-open (suc fuel) ([] ∷ e ∷ es) last (hd, h) hl missing =
      path_loop-colon fuel (path_text ((e ∷ es) ++ last ∷ []))
      ∙ path_loop-open (suc fuel) (e ∷ es) last h hl missing
  path_loop-open (suc fuel) ((c ∷ cs) ∷ ds) last (hd, h) hl missing =
      let text = path_text (ds ++ last ∷ []) in
      let token = end_token-colon (c ∷ cs) text hd in
      elim (Bool-cases (is_found exists filename (c ∷ cs))) [
        | inl e ↦
            let found : first_found ((c ∷ cs) ∷ ds) ≡ some (candidate exists filename (c ∷ cs)) =
              rw e refl in
            cc
        | inr e ↦
            let behind : first_found ((c ∷ cs) ∷ ds) ≡ first_found ds = rw e refl in
            ap (path_loop exists filename (suc fuel)) (path_text-more (c ∷ cs) ds last)
            ∙ path_loop-step fuel c cs (cs ++ b':' ∷ text) text hd token
            ∙ rw e (path_loop-open fuel ds last h hl (sym behind ∙ missing))
      ]

-- Where the file is not there itself, and no directory holds a colon or a NUL: `_yrt_resolve_path`
-- finds the file in the first directory that is not empty, is short enough and holds it, if a NUL
-- follows the copy of the path in memory.
pub resolve_path-first :
    (exists : List ℕ → Bool) (filename : List ℕ) (dirs : List (List ℕ)) (behind : List ℕ)
    → exists filename ≡ false
    → All IsDirectory dirs
    → resolve_path exists filename (path_text dirs) (0 ∷ behind)
      ≡ some (first_found exists filename dirs)
unfolding resolve_path
resolve_path-first exists filename dirs behind absent h = rw absent (
    path_loop-first exists filename (suc (length (path_text dirs ++ 0 ∷ behind))) dirs behind h
      (omega arith))

-- The copy has no NUL of its own: with nothing behind it, a search that comes to the last directory
-- reads past the end.
pub resolve_path-open :
    (exists : List ℕ → Bool) (filename : List ℕ) (dirs : List (List ℕ)) (last : List ℕ)
    → exists filename ≡ false
    → All IsDirectory dirs
    → IsDirectory last
    → first_found exists filename dirs ≡ none
    → resolve_path exists filename (path_text (dirs ++ last ∷ [])) [] ≡ none
unfolding resolve_path
resolve_path-open exists filename dirs last absent h hl missing =
    rw (absent, append-nil)
      (path_loop-open exists filename (suc (length (path_text (dirs ++ last ∷ [])))) dirs last h hl
        missing)
