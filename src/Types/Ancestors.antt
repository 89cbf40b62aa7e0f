-- ===== src/Types/Ancestors.antt =====
-- c/type.c: `_yrt_type_equals` on itself, and on classes.
use yruntime.Base.{
  ℕ, ◌≡◌, refl, Bool, true, false, ◌&&◌, ◌||◌, ◌==◌, if◌then◌else◌, Bool-cases, inl, inr, arith,
}
use yruntime.Types.Equals.{
  Info, info, Infos, nil, cons, count, is_scalar, struct_id, object_id, type_equals, inner_equals,
  parent_equals,
}

==-same : (n : ℕ) → (n == n) ≡ true
==-same n = ground arith

mutual
  unfolding type_equals inner_equals parent_equals

  equals_itself : (a : Info) → type_equals a a ≡ true
  equals_itself (info id size name inner) =
      let loop = inner_equals_refl inner in
      rw (==-same id, ==-same size, ==-same name, ==-same (count inner), loop)
        (elim (Bool-cases (is_scalar id)) [
          | inl scalar ↦ rw scalar refl
          | inr other ↦ elim (Bool-cases (id == struct_id)) [
            | inl struct ↦
                rw (other, struct)
                  (elim (Bool-cases (id == object_id)) [ inl e ↦ rw e refl | inr e ↦ rw e refl ])
            | inr no_struct ↦ elim (Bool-cases (id == object_id)) [
              | inl object ↦ rw (other, no_struct, object) refl
              | inr no_object ↦ rw (other, no_struct, no_object) refl
            ]
          ]
        ])

  inner_equals_refl : (inner : Infos) → inner_equals inner inner ≡ true
  inner_equals_refl nil = refl
  inner_equals_refl (cons a rest) = rw (equals_itself a, inner_equals_refl rest) refl

-- `_yrt_type_equals` holds of a type info and itself, whatever its id.
pub type_equals_refl : (a : Info) → type_equals a a ≡ true
type_equals_refl a = equals_itself a

-- Whether a class is the one of a name or descends from it, by the first inner types.
unfoldable mutual
  pub descends : Info → ℕ → Bool
  descends (info id size name inner) ancestor =
      let above = parent_descends inner ancestor in
      (id == object_id) && ((name == ancestor) || above)

  pub parent_descends : Infos → ℕ → Bool
  parent_descends nil ancestor = false
  parent_descends (cons a rest) ancestor = descends a ancestor

by_name : (same above : Bool) → (if same then true else above) ≡ same || above
by_name true above = refl
by_name false above = refl

mutual
  unfolding type_equals inner_equals parent_equals descends parent_descends

  equals_ancestor :
      (a : Info) (size name : ℕ) (inner : Infos)
      → type_equals a (info object_id size name inner) ≡ descends a name
  equals_ancestor (info id size' name' inner') size name inner =
      let above = parent_equals-descends inner' size name inner in
      elim (Bool-cases (id == object_id)) [
        | inl object ↦
            let same : id ≡ object_id = ground arith in
            rw (same, above)
              (elim (Bool-cases (count inner' == count inner)) [
                | inl sizes ↦ rw sizes (by_name (name' == name) (parent_descends inner' name))
                | inr sizes ↦ rw sizes (by_name (name' == name) (parent_descends inner' name))
              ])
        | inr other ↦ rw other refl
      ]

  parent_equals-descends :
      (inner' : Infos) (size name : ℕ) (inner : Infos)
      → parent_equals inner' (info object_id size name inner) ≡ parent_descends inner' name
  parent_equals-descends nil size name inner = refl
  parent_equals-descends (cons a rest) size name inner = equals_ancestor a size name inner

-- `_yrt_type_equals` of a type and a class holds where the type is a class too, and it or one of
-- the classes that it descends from, by the first inner types, has the name of the class. So it is
-- no equality of types: a class that descends from another is found equal to that one.
pub type_equals-descends :
    (a : Info) (size name : ℕ) (inner : Infos)
    → type_equals a (info object_id size name inner) ≡ descends a name
type_equals-descends a size name inner = equals_ancestor a size name inner
