-- ===== src/Types/Runs.antt =====
-- c/type.c: a class and its base class.
use yruntime.Base.{◌≡◌, refl, true, false}
use yruntime.Types.Equals.{
  Info, info, nil, cons, object_id, type_equals, inner_equals, parent_equals,
}
use yruntime.Types.Ancestors.{descends, type_equals-descends}

abbrev base_class : Info
base_class = info object_id 16 500 nil

abbrev derived : Info
derived = info object_id 24 600 (cons base_class nil)

-- The comparison is not symmetric on classes.
derived_run : (type_equals derived base_class ≡ true) × (type_equals base_class derived ≡ false)
unfolding type_equals inner_equals parent_equals
derived_run = (refl, refl)

type_equals-descends_example : type_equals derived base_class ≡ descends derived 500
type_equals-descends_example = type_equals-descends derived 16 500 nil
