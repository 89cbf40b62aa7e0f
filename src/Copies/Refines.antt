-- ===== src/Copies/Refines.antt =====
-- c/ymemory.c: the map as the list of what was inserted.
use yruntime.Base.{
  ℕ, suc, ◌+◌, ◌≤◌, ◌≡◌, refl, ap, sym, ◌∙◌, List, [], ◌∷◌, ◌++◌, some, true, ltb, ◌==◌,
  if◌then◌else◌, get_elem?, length, length-append, set-append, get_elem?-append, lt→ltb, drop,
  Bool-cases, inl, inr, append_assoc, arith,
}
use yruntime.Copies.Map.{DcopyMap, store, find_loop, copy_loop}

abbrev pub keys : List (ℕ × ℕ) → List ℕ
keys [] = []
keys (e ∷ es) = e.0 ∷ keys es

abbrev pub values : List (ℕ × ℕ) → List ℕ
values [] = []
values (e ∷ es) = e.1 ∷ values es

-- What is bound to a key, 0 where nothing is; the oldest binding counts.
abbrev pub lookup : ℕ → List (ℕ × ℕ) → ℕ
lookup key [] = 0
lookup key (e ∷ es) = if e.0 == key then e.1 else lookup key es

-- The arrays hold the entries, in the order of their insertion, and unused words behind them.
pub record Represents (m : DcopyMap) (es : List (ℕ × ℕ)) : Type 0 where
  pub spare_from : List ℕ
  pub spare_to : List ℕ
  pub from_words : m.from ≡ keys es ++ spare_from
  pub to_words : m.to ≡ values es ++ spare_to
  pub used_count : m.used ≡ length es
  pub from_size : length m.from ≡ m.len
  pub to_size : length m.to ≡ m.len

pub store-append :
    (front back : List ℕ) (x y : ℕ)
    → store (front ++ x ∷ back) (length front) y ≡ some (front ++ y ∷ back)
unfolding store
store-append front back x y =
    let inside : ltb (length front) (length (front ++ x ∷ back)) ≡ true =
      lt→ltb _ _ (omega (arith, length-append front (x ∷ back))) in
    rw (inside, set-append) refl

-- A round moves the first word of `back` over the first word of the target's rest.
pub copy_loop-append :
    (front back target : List ℕ)
    → length back ≤ length target
    → copy_loop (length back) (length front) (front ++ back) (front ++ target)
      ≡ some (front ++ (back ++ drop (length back) target))
unfolding copy_loop
copy_loop-append front [] target h = refl
copy_loop-append front (b ∷ back) [] h = absurd (omega arith)
copy_loop-append front (b ∷ back) (t ∷ target) h =
    let moved : length front + 1 ≡ length (front ++ b ∷ []) =
      omega (arith, length-append front (b ∷ [])) in
    let whole : front ++ b ∷ back ≡ (front ++ b ∷ []) ++ back =
      sym (append_assoc front (b ∷ []) back) in
    let copied : front ++ b ∷ target ≡ (front ++ b ∷ []) ++ target =
      sym (append_assoc front (b ∷ []) target) in
    rw (get_elem?-append, store-append, moved, whole, copied)
      (copy_loop-append (front ++ b ∷ []) back target (omega arith)
        ∙ ap some (append_assoc front (b ∷ []) (back ++ drop (length back) target)))

-- The loop from an entry on, with the entries before it behind it.
pub find_loop-lookup :
    (m : DcopyMap) (key : ℕ) (es : List (ℕ × ℕ)) (ks vs sf st : List ℕ)
    → m.from ≡ ks ++ (keys es ++ sf)
    → m.to ≡ vs ++ (values es ++ st)
    → length ks ≡ length vs
    → find_loop (length es) (length ks) m key ≡ some (lookup key es)
unfolding find_loop
find_loop-lookup m key [] ks vs sf st hf ht same = refl
find_loop-lookup m key (e ∷ es) ks vs sf st hf ht same =
    let first : get_elem? m.from (length ks) ≡ some (e.0) = rw hf (get_elem?-append ks _ _) in
    let second : get_elem? m.to (length ks) ≡ some (e.1) =
      rw (ht, same) (get_elem?-append vs _ _) in
    let moved : length ks + 1 ≡ length (ks ++ e.0 ∷ []) =
      omega (arith, length-append ks (e.0 ∷ [])) in
    let rest : find_loop (length es) (length ks + 1) m key ≡ some (lookup key es) = rw moved (
      find_loop-lookup m key es (ks ++ e.0 ∷ []) (vs ++ e.1 ∷ []) sf st
        (hf ∙ sym (append_assoc ks (e.0 ∷ []) (keys es ++ sf)))
        (ht ∙ sym (append_assoc vs (e.1 ∷ []) (values es ++ st)))
        (omega (arith, length-append ks (e.0 ∷ []), length-append vs (e.1 ∷ [])))) in
    rw (first, rest, second)
      (elim (Bool-cases (e.0 == key)) [ inl h ↦ rw h refl | inr h ↦ rw h refl ])

pub length-keys : (es : List (ℕ × ℕ)) → length (keys es) ≡ length es
length-keys [] = refl
length-keys (e ∷ es) = ap suc (length-keys es)

pub length-values : (es : List (ℕ × ℕ)) → length (values es) ≡ length es
length-values [] = refl
length-values (e ∷ es) = ap suc (length-values es)

pub keys-append : (es fs : List (ℕ × ℕ)) → keys (es ++ fs) ≡ keys es ++ keys fs
keys-append [] fs = refl
keys-append (e ∷ es) fs = ap (λ r. e.0 ∷ r) (keys-append es fs)

pub values-append : (es fs : List (ℕ × ℕ)) → values (es ++ fs) ≡ values es ++ values fs
values-append [] fs = refl
values-append (e ∷ es) fs = ap (λ r. e.1 ∷ r) (values-append es fs)
