-- ===== src/Types/Equals.antt =====
-- c/type.c: `_yrt_type_equals`, on the type infos of c/type.h.
use yruntime.Base.{ℕ, suc, Bool, true, false, not, ◌&&◌, ◌||◌, ◌==◌, if◌then◌else◌}

-- `_ytype_info`: the id, the size, the address of the name's text, and the inner type infos.
mutual
  pub data Info : Type 0 where
    info : ℕ → ℕ → ℕ → Infos → Info

  pub data Infos : Type 0 where
    nil : Infos
    cons : Info → Infos → Infos

abbrev pub count : Infos → ℕ
count nil = 0
count (cons a rest) = suc (count rest)

-- `BOOL_`, `CHAR_`, `FLOAT_`, `SIGNED_INT` and `UNSIGNED_INT`.
abbrev pub is_scalar : ℕ → Bool
is_scalar id = id == 2 || id == 3 || id == 5 || id == 7 || id == 8

abbrev pub struct_id : ℕ
struct_id = 11

abbrev pub object_id : ℕ
object_id = 13

unfoldable mutual
  pub type_equals : Info → Info → Bool
  type_equals (info id size name inner) (info id' size' name' inner') =
      let all = inner_equals inner inner' in
      let parent = parent_equals inner (info id' size' name' inner') in
      if not (id == id')
      then false
      else if is_scalar id
      then size == size'
      else if count inner == count inner' && (not (id == struct_id) && not (id == object_id))
      then all
      else if id == object_id
      then (if name == name' then true else parent)
      else if id == struct_id
      then name == name'
      else false

  -- The loop over the inner types, where there are as many on both sides.
  pub inner_equals : Infos → Infos → Bool
  inner_equals nil inner' = true
  inner_equals (cons a rest) nil = false
  inner_equals (cons a rest) (cons b rest') =
      let more = inner_equals rest rest' in if type_equals a b then more else false

  -- The call on the first inner type.
  pub parent_equals : Infos → Info → Bool
  parent_equals nil b = false
  parent_equals (cons a rest) b = type_equals a b
