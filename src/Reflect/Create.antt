-- ===== src/Reflect/Create.antt =====
-- c/reflect.c: the creation of an object from the name of its class, with the allocation of
-- c/ymemory.c.
use yruntime.Base.{ℕ, List, Option, none, some, Bool, not, leb, ◌==◌, guard, ◌>>◌}
use yruntime.Utf.Code.{to_utf8_array}
use yruntime.Reflect.Find.{
  Found, found, no_vtable, no_default_constructor, no_symbol, overflow, get_vtable,
  get_constructor_no_param,
}

-- The size in the type info that the vtable begins with, and the destructor behind it, 0 for NULL.
pub record VTable : Type 0 where
  pub size : ℕ
  pub destructor : ℕ

-- A block of `size` bytes: its first two words, and whether a finalizer is registered for it.
pub record Object : Type 0 where
  pub size : ℕ
  pub vtable : ℕ
  pub monitor : ℕ
  pub finalizer : Bool

-- `aborted` is the abort that a lookup throws, `overrun` a write past a block, or the overflow of
-- an `int`.
pub data Created {ℓ} (A : Type ℓ) : Type ℓ where
  created : A → Created A
  aborted : Found → Created A
  overrun : Created A

abbrev pub and_then {ℓ κ} : {A : Type ℓ} {B : Type κ} → Created A → (A → Created B) → Created B
and_then (created a) f = f a
and_then (aborted e) f = aborted e
and_then overrun f = overrun

-- A pointer that a lookup finds; it throws otherwise.
abbrev pub lookup : Found → Created ℕ
lookup (found ptr) = created ptr
lookup (no_vtable name) = aborted (no_vtable name)
lookup (no_default_constructor name) = aborted (no_default_constructor name)
lookup (no_symbol name) = aborted (no_symbol name)
lookup overflow = overrun

abbrev pub or_overrun {ℓ} : {A : Type ℓ} → Option A → Created A
or_overrun none = overrun
or_overrun (some a) = created a

-- The memory of the vtables, and the symbol table.
module _ (vtable_at : ℕ → VTable) (find_symbol : List ℕ → ℕ) where
  unfoldable pub alloc_class : ℕ → Option Object
  alloc_class vtable =
      let table = vtable_at vtable in
      guard (leb 16 table.size)
      >> some (record {
        size = table.size;
        vtable = vtable;
        monitor = 0;
        finalizer = not (table.destructor == 0);
      })

  -- The function that `_yrt_destruct_class` calls.
  abbrev pub destruct_class : Object → ℕ
  destruct_class obj = (vtable_at obj.vtable).destructor

  unfoldable pub create_class_from_name_no_construct : List ℕ → Created Object
  create_class_from_name_no_construct name =
      and_then (lookup (get_vtable find_symbol name name))
        (λ vtable. or_overrun (alloc_class vtable))

  unfoldable pub create_class_from_name_no_construct_utf32 : List ℕ → Created Object
  create_class_from_name_no_construct_utf32 name =
      and_then (or_overrun (to_utf8_array name)) create_class_from_name_no_construct

  -- `call` is the call of a constructor on an object.
  module _ {ℓ} {A : Type ℓ} (call : ℕ → Object → A) where
    unfoldable pub create_class_from_name : List ℕ → Created A
    create_class_from_name name = and_then (lookup (get_vtable find_symbol name name)) (λ vtable.
        and_then (lookup (get_constructor_no_param find_symbol name name))
          (λ cstr. and_then (or_overrun (alloc_class vtable)) (λ obj. created (call cstr obj))))

    unfoldable pub create_class_from_name_utf32 : List ℕ → Created A
    create_class_from_name_utf32 name =
        and_then (or_overrun (to_utf8_array name)) create_class_from_name
