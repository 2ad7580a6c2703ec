-- ===== src/LogObject/Registry.antt =====
-- The list of registered log objects of src/ml_log_object.c. An object is known by its place in the
-- list; it is registered once.
use monolinux_c_library.Prelude.{
  ℕ, zero, suc, not, List, [], ◌∷◌, Option, none, some, Bool, if◌then◌else◌,
}
use monolinux_c_library.Prelude.Int.{ℤ, ltb_ℤ}
use monolinux_c_library.Prelude.Text.{Text, same}

-- `struct ml_log_object_t`; the list stands for `next_p`.
pub record Object : Type 0 where
  pub name : Text
  pub level : ℤ

unfoldable pub init : Text → ℤ → Object
init name level = record { name = name; level = level }

unfoldable pub register : Object → List Object → List Object
register self objects = self ∷ objects

abbrev pub bump : Option ℕ → Option ℕ
bump none = none
bump (some i) = some (suc i)

unfoldable pub get_by_name : List Object → Text → Option ℕ
unfolding same
get_by_name [] name = none
get_by_name (object ∷ objects) name =
    if same object.name name then some 0 else bump (get_by_name objects name)

unfoldable pub set_level : List Object → ℕ → ℤ → List Object
set_level [] i level = []
set_level (object ∷ objects) zero level = record object { level = level } ∷ objects
set_level (object ∷ objects) (suc i) level = object ∷ set_level objects i level

unfoldable pub is_enabled_for : Object → ℤ → Bool
is_enabled_for self level = not (ltb_ℤ self.level level)
