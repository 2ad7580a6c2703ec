-- ===== src/Shell/Registry.antt =====
-- The table of commands of src/ml_shell.c, and the execution of a command line. bsearch() and
-- qsort() come from the C library. A callback is its address; what it does to the world, and its
-- result, is a parameter. What is printed is left out. compare_qsort ends the process where two
-- commands have the same name.
use monolinux_c_library.Libc.{Libc}
use monolinux_c_library.Prelude.{
  ℕ, List, [], ◌∷◌, ◌++◌, Option, none, some, get_elem?, ltb, ◌==◌, if◌then◌else◌,
}
use monolinux_c_library.Prelude.Int.{ℤ, pos, negsuc}
use monolinux_c_library.Prelude.Text.{Text}
use monolinux_c_library.Shell.Parse.{parse_command}

-- `struct command_t`.
pub record Command : Type 0 where
  pub name : Text
  pub description : Text
  pub callback : ℕ

-- strcmp(), of whose result the sign counts.
unfoldable pub strcmp : Text → Text → ℤ
strcmp [] [] = pos 0
strcmp [] (b ∷ t) = negsuc 0
strcmp (a ∷ s) [] = pos 1
strcmp (a ∷ s) (b ∷ t) =
    let rest = strcmp s t in if ltb a b then negsuc 0 else if a == b then rest else pos 1

unfoldable pub compare_bsearch : Text → Command → ℤ
unfolding strcmp
compare_bsearch name elem = strcmp name elem.name

unfoldable pub compare_qsort : Command → Command → ℤ
unfolding strcmp
compare_qsort lelem relem = strcmp lelem.name relem.name

-- ml_shell_register_command().
unfoldable pub register_command : List Command → Text → Text → ℕ → List Command
register_command commands name description callback =
    commands ++ (record { name = name; description = description; callback = callback } ∷ [])

module _ (libc : Libc Command) where
  abbrev pub at_index : List Command → Option ℕ → Option Command
  at_index commands none = none
  at_index commands (some i) = get_elem? commands i

  unfoldable pub find_command : List Command → Text → Option Command
  find_command commands name = at_index commands (libc.bsearch (compare_bsearch name) commands)

  -- ml_shell_start(), but for the thread, which runs the loop of read_command.
  unfoldable pub start : List Command → List Command
  start commands = libc.qsort compare_qsort commands

  module _ {W : Type 0} (call : ℕ → List Text → W → ℤ × W) where
    -- -EINVAL.
    abbrev pub dispatch : Option Command → List Text → W → ℤ × W
    dispatch none args world = (negsuc 21, world)
    dispatch (some command) args world = call command.callback args world

    abbrev pub execute_parsed : List Command → Option (List Text) → W → ℤ × W
    execute_parsed commands none world = (negsuc 0, world)
    execute_parsed commands (some []) world = (negsuc 0, world)
    execute_parsed commands (some (name ∷ args)) world =
        dispatch (find_command commands name) (name ∷ args) world

    -- ml_shell_execute_command().
    unfoldable pub execute_command : List Command → Text → W → ℤ × W
    unfolding parse_command find_command
    execute_command commands line world = execute_parsed commands (parse_command line) world
