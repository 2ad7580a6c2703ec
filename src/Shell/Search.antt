-- ===== src/Shell/Search.antt =====
-- Ctrl+R, the search of the history of src/ml_shell.c.
use monolinux_c_library.Prelude.{
  ℕ, [], ◌∷◌, Option, none, some, Bool, true, ◌||◌, ◌==◌, if◌then◌else◌,
}
use monolinux_c_library.Prelude.Int.{negsuc}
use monolinux_c_library.Prelude.Text.{Text}
use monolinux_c_library.Shell.Line.{
  Line, line_init, line_insert, line_insert_string, line_delete, line_seek,
}
use monolinux_c_library.Shell.Complete.{c_string}
use monolinux_c_library.Shell.History.{history_reverse_search}
use monolinux_c_library.Shell.Keys.{Shell, with_line, is_print}

abbrev pub found_line : Line → Option Text → Line
found_line self none = line_init self
found_line self (some buf) = line_insert_string (line_init self) buf

-- The search for a changed pattern.
unfoldable pub search : Shell → Line → Shell
unfolding history_reverse_search
search self pattern = record self {
  pattern = pattern;
  found = found_line self.found (history_reverse_search self.history.elems (c_string pattern.buf));
}

abbrev pub is_erase : ℕ → Bool
is_erase ch = ch == 127 || ch == 8

-- A character that does not end the search.
unfoldable pub search_step : ℕ → Shell → Shell
unfolding search
search_step ch self =
    if is_erase ch
    then if self.pattern.length == 0
      then self
      else search self (line_delete (line_seek self.pattern (negsuc 0)).0)
    else if ch == 13
    then record self { carriage_return_received = true }
    else let (pattern, inserted) = line_insert self.pattern ch in
      if inserted then search self pattern else record self { pattern = pattern }

-- Ctrl+R: the match becomes the line. Two more bytes are read behind ESC, or one if that is `d`.
abbrev pub after_escape : Shell → Text → Option (Shell × Text)
after_escape self [] = none
after_escape self (ch ∷ []) = if ch == b'd' then some (self, []) else none
after_escape self (ch ∷ next ∷ input) =
    if ch == b'd' then some (self, next ∷ input) else some (self, input)

unfoldable pub accept : ℕ → Shell → Text → Option (Shell × Text)
accept ch self input =
    let accepted = with_line self self.found in
    if ch == 10
    then some (record accepted { newline_received = true }, input)
    else if ch == 27
    then after_escape accepted input
    else some (accepted, input)

unfoldable pub ctrl_r_loop : Text → Shell → Option (Shell × Text)
unfolding search_step accept
ctrl_r_loop [] self = none
ctrl_r_loop (ch ∷ input) self =
    let more = ctrl_r_loop input (search_step ch self) in
    if is_erase ch
    then more
    else if ch == 13
    then more
    else if ch == 7
    then some (self, input)
    else if is_print ch
    then more
    else accept ch self input

unfoldable pub handle_ctrl_r : Text → Shell → Option (Shell × Text)
unfolding ctrl_r_loop
handle_ctrl_r input self =
    ctrl_r_loop input
      (record self { pattern = line_init self.pattern; found = line_init self.found })
