-- ===== src/Shell/Reader.antt =====
-- read_command of src/ml_shell.c: the switch over the keys, and its loop.
use monolinux_c_library.Prelude.{
  ℕ, zero, suc, List, [], ◌∷◌, Option, none, some, Bool, true, false, length, ◌==◌, if◌then◌else◌,
}
use monolinux_c_library.Prelude.Text.{Text}
use monolinux_c_library.Shell.Line.{
  line_init, line_insert, line_delete, line_truncate, line_seek_begin, line_seek_end,
}
use monolinux_c_library.Shell.Complete.{c_string, auto_complete_command}
use monolinux_c_library.Shell.History.{history_append, history_reset_current}
use monolinux_c_library.Shell.Keys.{Shell, with_line, handle_backspace, handle_ctrl_t, handle_alt}
use monolinux_c_library.Shell.Search.{is_erase, handle_ctrl_r}

-- The switch of read_command. `names` are the registered commands.
unfoldable pub handle : List Text → ℕ → Text → Shell → Option (Shell × Text)
unfolding handle_backspace handle_ctrl_t handle_alt handle_ctrl_r
handle names ch input self =
    if ch == 9
    then some (with_line self (auto_complete_command names self.line), input)
    else if ch == 13
    then some (record self { carriage_return_received = true }, input)
    else if ch == 10
    then some (record self { newline_received = true }, input)
    else if is_erase ch
    then some (with_line self (handle_backspace self.line), input)
    else if ch == 1
    then some (with_line self (line_seek_begin self.line), input)
    else if ch == 5
    then some (with_line self (line_seek_end self.line), input)
    else if ch == 4
    then some (with_line self (line_delete self.line), input)
    else if ch == 11
    then some (with_line self (line_truncate self.line), input)
    else if ch == 20
    then some (with_line self (handle_ctrl_t self.line), input)
    else if ch == 18
    then handle_ctrl_r input self
    else if ch == 27
    then handle_alt input self
    else some (with_line self (line_insert self.line ch).0, input)

-- `allocated` is whether malloc() works for the history.
unfoldable pub execute_line : Bool → Shell → Shell
unfolding history_append history_reset_current
execute_line allocated self =
    let history = self.history in
    let elems =
      if self.line.length == 0
      then history.elems
      else history_append allocated history.elems (c_string self.line.buf) in
    record self { history = history_reset_current (record history { elems = elems }) }

abbrev pub save_line : Shell → Shell
save_line self = record self { prev_line = self.line }

abbrev pub or_execute : Bool → Shell → Text → Option (Shell × Text) → Option (Shell × Text)
or_execute allocated self input more =
    if self.newline_received then some (execute_line allocated self, input) else more

-- The loop of read_command. Each round reads at least one byte, so the length of the input bounds
-- the rounds.
unfoldable pub read_loop : List Text → Bool → ℕ → Text → Shell → Option (Shell × Text)
unfolding handle execute_line
read_loop names allocated rounds [] self = none
read_loop names allocated zero (ch ∷ input) self = none
read_loop names allocated (suc rounds) (ch ∷ input) self =
    elim (handle names ch input (save_line self)) [
      | none ↦ none
      | some (self', input') ↦
          or_execute allocated self' input' (read_loop names allocated rounds input' self')
    ]

abbrev pub cleared : Shell → Shell
cleared self = record self {
  line = line_init self.line;
  carriage_return_received = false;
  newline_received = false;
}

-- Read the next command.
unfoldable pub read_command : List Text → Bool → Text → Shell → Option (Shell × Text)
unfolding read_loop
read_command names allocated input self =
    read_loop names allocated (length input) input (cleared self)
