-- ===== src/Shell/Keys.antt =====
-- The editing keys of src/ml_shell.c, and ESC. What is printed is left out. xgetc() takes the next
-- byte of the input, and ends the process where there is none.
use monolinux_c_library.Prelude.{
  ℕ, zero, suc, [], ◌∷◌, Option, none, some, Bool, not, ◌&&◌, ◌||◌, ltb, leb, ◌==◌, if◌then◌else◌,
}
use monolinux_c_library.Prelude.Int.{pos, negsuc}
use monolinux_c_library.Prelude.Text.{Text}
use monolinux_c_library.Shell.Line.{
  Line, line_init, line_insert, line_insert_string, line_delete, line_peek, line_seek,
  line_seek_begin, line_seek_end,
}
use monolinux_c_library.Shell.Complete.{c_string}
use monolinux_c_library.Shell.History.{
  History, history_get_previous_command, history_get_next_command,
}

-- `struct module_t` but for the table of commands; `found` is `match`.
pub record Shell : Type 0 where
  pub line : Line
  pub prev_line : Line
  pub carriage_return_received : Bool
  pub newline_received : Bool
  pub history : History
  pub pattern : Line
  pub found : Line

abbrev pub with_line : Shell → Line → Shell
with_line self line = record self { line = line }

unfoldable pub handle_backspace : Line → Line
unfolding line_seek line_delete
handle_backspace self =
    let (self', moved) = line_seek self (negsuc 0) in if moved then line_delete self' else self'

-- The swap at a cursor that stands on the second character.
abbrev pub swap : Line → Line
swap self =
    let ch = line_peek self in
    let inserted = (line_insert (line_seek (line_delete self) (negsuc 0)).0 ch).0 in
    (line_seek inserted (pos 1)).0

unfoldable pub handle_ctrl_t : Line → Line
unfolding line_seek line_delete line_insert line_peek
handle_ctrl_t self =
    if self.cursor == 0
    then self
    else if ltb self.length 2
    then self
    else if self.cursor == self.length
    then swap (line_seek self (negsuc 0)).0
    else swap self

-- isblank() and isprint() in the C locale.
abbrev pub is_blank : ℕ → Bool
is_blank c = c == 32 || c == 9

abbrev pub is_print : ℕ → Bool
is_print c = leb 32 c && leb c 126

abbrev pub in_word : ℕ → Bool
in_word c = not (is_blank c) && not (c == 0)

-- A loop that deletes while the character at the cursor passes a test. It deletes at most the whole
-- line, whose length bounds the rounds.
unfoldable pub delete_while : ℕ → (ℕ → Bool) → Line → Line
unfolding line_peek line_delete
delete_while zero test self = self
delete_while (suc rounds) test self =
    let more = delete_while rounds test (line_delete self) in
    if test (line_peek self) then more else self

unfoldable pub delete_word : Line → Line
unfolding delete_while
delete_word self =
    let self' = delete_while self.length is_blank self in delete_while self'.length in_word self'

-- UP and DOWN put the recalled command into the line, if there is one.
unfoldable pub recall : Shell → History × Option Text → Shell
recall self (history, none) = record self { history = history }
recall self (history, some buf) = record self {
  history = history;
  line = line_insert_string (line_init self.line) buf;
}

-- ESC, and ESC followed by `O` and by `[`.
unfoldable pub handle_home_end : ℕ → Line → Line
unfolding line_seek_begin line_seek_end
handle_home_end ch self =
    if ch == b'H' then line_seek_begin self else if ch == b'F' then line_seek_end self else self

unfoldable pub handle_arrow : ℕ → Shell → Shell
unfolding recall line_seek
handle_arrow ch self =
    if ch == b'A'
    then recall self (history_get_previous_command self.history (c_string self.line.buf))
    else if ch == b'B'
    then recall self (history_get_next_command self.history)
    else if ch == b'C'
    then with_line self (line_seek self.line (pos 1)).0
    else if ch == b'D'
    then with_line self (line_seek self.line (negsuc 0)).0
    else self

-- `none` is the end of the input.
unfoldable pub handle_alt : Text → Shell → Option (Shell × Text)
unfolding delete_word handle_home_end handle_arrow
handle_alt [] self = none
handle_alt (ch ∷ []) self =
    if ch == b'd'
    then some (with_line self (delete_word self.line), [])
    else if ch == b'O'
    then none
    else if ch == b'['
    then none
    else some (self, [])
handle_alt (ch ∷ next ∷ input) self =
    if ch == b'd'
    then some (with_line self (delete_word self.line), next ∷ input)
    else if ch == b'O'
    then some (with_line self (handle_home_end next self.line), input)
    else if ch == b'['
    then some (handle_arrow next self, input)
    else some (self, next ∷ input)
