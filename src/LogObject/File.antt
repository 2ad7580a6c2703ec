-- ===== src/LogObject/File.antt =====
-- Loading and storing levels, src/ml_log_object.c. The contents of the file are a parameter, with
-- `none` for one that cannot be opened; fscanf() comes from the C library. Log output is left out.
use monolinux_c_library.Prelude.{
  ℕ, zero, suc, ◌+◌, ◌≡◌, ◌≤◌, ◌<◌, List, [], ◌∷◌, ◌++◌, Option, none, some, Bool, false, ◌&&◌,
  ◌||◌, leb, length, All, ◌==◌, if◌then◌else◌,
}
use monolinux_c_library.Prelude.Int.{ℤ, pos, negsuc}
use monolinux_c_library.Prelude.Text.{Text}
use monolinux_c_library.LogObject.Level.{level_to_string, level_from_string}
use monolinux_c_library.LogObject.Registry.{Object, get_by_name, set_level}

-- What `"%s %s\n"` prints.
abbrev pub line : Text → Text → Text
line name level = name ++ (32 ∷ (level ++ (10 ∷ [])))

-- The loop of ml_log_object_store over the list of objects.
unfoldable pub store_all : List Object → Text
store_all [] = []
store_all (object ∷ objects) = line object.name (level_to_string object.level) ++ store_all objects

-- ml_log_object_store: `none` is -EGENERAL, where fopen() fails.
unfoldable pub store : Bool → List Object → Option Text
unfolding store_all
store opened objects = if opened then some (store_all objects) else none

-- isspace() in the C locale.
abbrev pub is_space : ℕ → Bool
is_space c = c == 32 || (leb 9 c && leb c 13)

-- A word that `%63s` or `%15s` reads whole.
abbrev pub IsWord : ℕ → Text → Type 0
IsWord limit word = (0 < length word) × (length word ≤ limit) × All (λ c. is_space c ≡ false) word

-- `fscanf(file_p, "%63s %15s", ...)` on the rest of a file: the two words and what follows them, or
-- `none` if it does not return 2.
abbrev pub Scanner : Type 0
Scanner = Text → Option (Text × Text × Text)

-- Documented behaviour of fscanf(): it reads two words with a space between them and stops behind
-- the second, and fails at the end of the file.
pub record Scans (fscanf : Scanner) : Type 0 where
  pub words :
      (name level rest : Text)
      → IsWord 63 name
      → IsWord 15 level
      → fscanf (line name level ++ rest) ≡ some (name, level, 10 ∷ rest)
  pub end_of_file : fscanf [] ≡ none

-- The value -1.
abbrev pub is_invalid : ℤ → Bool
is_invalid (pos n) = false
is_invalid (negsuc n) = n == 0

abbrev pub set_valid_level : List Object → ℕ → ℤ → List Object
set_valid_level objects i value = if is_invalid value then objects else set_level objects i value

abbrev pub set_found : List Object → Option ℕ → Text → List Object
set_found objects none level = objects
set_found objects (some i) level = set_valid_level objects i (level_from_string level)

-- The body of the loop of ml_log_object_load for one line.
unfoldable pub load_line : Text → Text → List Object → List Object
unfolding get_by_name set_level
load_line name level objects = set_found objects (get_by_name objects name) level

-- The test that a newline follows; the file goes on behind it.
abbrev pub at_newline : Text → Text → Text → Option (Text × Text × Text)
at_newline name level [] = none
at_newline name level (c ∷ rest) = if c == 10 then some (name, level, rest) else none

abbrev pub scanned : Option (Text × Text × Text) → Option (Text × Text × Text)
scanned none = none
scanned (some (name, level, rest)) = at_newline name level rest

module _ (fscanf : Scanner) where
  -- Fuel bounds the rounds: each reads at least one byte.
  unfoldable pub load_loop : ℕ → Text → List Object → List Object
  unfolding load_line
  load_loop zero file objects = objects
  load_loop (suc fuel) file objects = elim (scanned (fscanf file)) [
    | none ↦ objects
    | some (name, level, rest) ↦ load_loop fuel rest (load_line name level objects)
  ]

  unfoldable pub load : Option Text → List Object → List Object
  unfolding load_loop
  load none objects = objects
  load (some file) objects = load_loop (length file + 1) file objects
