-- ===== src/Shell/Main.antt =====
-- The thread of the shell, shell_main of src/ml_shell.c. What it prints is left out; ml_strip() and
-- the parser edit the line's buffer, which the next read_command empties.
use monolinux_c_library.Libc.{Libc}
use monolinux_c_library.Prelude.{
  ℕ, zero, suc, List, map, Option, none, some, Bool, true, false, length, ◌==◌, if◌then◌else◌,
}
use monolinux_c_library.Prelude.Int.{ℤ}
use monolinux_c_library.Prelude.Text.{Text, codes}
use monolinux_c_library.Utilities.Strip.{strip}
use monolinux_c_library.Shell.Parse.{is_comment}
use monolinux_c_library.Shell.Complete.{c_string, same_prefix}
use monolinux_c_library.Shell.Keys.{Shell}
use monolinux_c_library.Shell.Reader.{read_command}
use monolinux_c_library.Shell.Registry.{Command, execute_command}

unfoldable pub is_exit : Text → Bool
unfolding same_prefix
is_exit line = same_prefix 5 line (codes "exit")

-- What a round of the loop does: leave the loop, nothing, or run a command, with its result.
pub data Outcome : Type 0 where
  exited : Outcome
  idle : Outcome
  ran : ℤ → Outcome

abbrev pub has_exited : Outcome → Bool
has_exited exited = true
has_exited _ = false

module _ (libc : Libc Command) {W : Type 0} (call : ℕ → List Text → W → ℤ × W) where
  abbrev pub run_stripped : List Command → Text → W → Outcome × W
  run_stripped commands line world =
      let (res, world') = execute_command libc call commands line world in
      if is_comment line
      then (idle, world)
      else if is_exit line
      then (exited, world)
      else (ran res, world')

  abbrev pub run_line : List Command → Text → W → Outcome × W
  run_line commands line world = run_stripped commands (strip line none) world

  abbrev pub ran_line : List Command → Shell → W → Outcome × W
  ran_line commands self world =
      if self.line.length == 0
      then (idle, world)
      else run_line commands (c_string self.line.buf) world

  -- The loop. `none` is the end of the process, where the input ends. Each round reads at least one
  -- byte, so the length of the input bounds the rounds.
  unfoldable pub main_loop : List Command → Bool → ℕ → Text → Shell → W → Option (W × Text)
  unfolding read_command execute_command strip is_exit is_comment
  main_loop commands allocated zero input self world = none
  main_loop commands allocated (suc rounds) input self world =
      elim (read_command (map (λ c. c.name) commands) allocated input self) [
        | none ↦ none
        | some (self', input') ↦
            let (outcome, world') = ran_line commands self' world in
            let more = main_loop commands allocated rounds input' self' world' in
            if has_exited outcome then some (world', input') else more
      ]

  unfoldable pub shell_main : List Command → Bool → Text → Shell → W → Option (W × Text)
  unfolding main_loop
  shell_main commands allocated input self world =
      main_loop commands allocated (suc (length input)) input self world
