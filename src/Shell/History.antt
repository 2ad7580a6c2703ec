-- ===== src/Shell/History.antt =====
-- The command history of src/ml_shell.c. The linked list from `head_p` to `tail_p` is a list, and
-- `current_p` the place of an element in it.
use monolinux_c_library.Prelude.{
  ℕ, zero, suc, ◌+◌, List, [], ◌∷◌, ◌++◌, Option, none, some, Bool, true, false, length, get_elem?,
  drop, ◌==◌, ◌||◌, if◌then◌else◌,
}
use monolinux_c_library.Prelude.Text.{Text, same}

abbrev pub maximum_history_length : ℕ
maximum_history_length = 64

-- `line` holds the text of the line that was edited when UP was pressed first.
pub record History : Type 0 where
  pub elems : List Text
  pub current : Option ℕ
  pub line : Text
  pub line_valid : Bool

unfoldable pub history_init : History
history_init = record { elems = []; current = none; line = []; line_valid = false }

-- The string at `tail_p` equals the command.
abbrev pub is_last : List Text → Text → Bool
is_last [] command = false
is_last (elem ∷ []) command = same elem command
is_last (elem ∷ next ∷ elems) command = is_last (next ∷ elems) command

abbrev pub without_head : List Text → List Text
without_head elems = if length elems == maximum_history_length then drop 1 elems else elems

-- `allocated` is whether malloc() works.
unfoldable pub history_append : Bool → List Text → Text → List Text
unfolding same
history_append allocated elems command =
    if is_last elems command
    then elems
    else if allocated
    then without_head elems ++ (command ∷ [])
    else without_head elems

-- The element before an element, and the one behind it, if any.
abbrev pub at_tail : List Text → Option ℕ
at_tail [] = none
at_tail (elem ∷ elems) = some (length elems)

abbrev pub behind : List Text → ℕ → Option ℕ
behind elems i = elim (get_elem? elems (i + 1)) [ none ↦ none | some elem ↦ some (i + 1) ]

abbrev pub buf_of : List Text → Option ℕ → Option Text
buf_of elems none = none
buf_of elems (some i) = get_elem? elems i

abbrev pub set_current : History → Option ℕ → History
set_current h current = record h { current = current }

-- The branches on `current_p`; `line` is the line that is edited. UP is pressed first, or again.
abbrev pub first_previous : Option ℕ → History → Text → History × Option Text
first_previous none h line = (h, none)
first_previous (some i) h line =
    (record h { current = some i; line = line; line_valid = true }, buf_of h.elems (some i))

abbrev pub previous_from : Option ℕ → History → Text → History × Option Text
previous_from none h line = first_previous (at_tail h.elems) h line
previous_from (some zero) h line = (h, none)
previous_from (some (suc i)) h line = (set_current h (some i), buf_of h.elems (some i))

unfoldable pub history_get_previous_command : History → Text → History × Option Text
history_get_previous_command h line = previous_from h.current h line

abbrev pub next_of : List Text → Option ℕ → Option ℕ
next_of elems none = none
next_of elems (some i) = behind elems i

abbrev pub next_at : Option ℕ → History → History × Option Text
next_at (some i) h = (h, buf_of h.elems (some i))
next_at none h = if h.line_valid then (record h { line_valid = false }, some h.line) else (h, none)

unfoldable pub history_get_next_command : History → History × Option Text
history_get_next_command h =
    let current = next_of h.elems h.current in next_at current (set_current h current)

unfoldable pub history_reset_current : History → History
history_reset_current h = set_current h none

-- strstr() finds the pattern: it stands at the start of the string, or in the rest of it.
unfoldable pub starts_with : Text → Text → Bool
starts_with [] str = true
starts_with (c ∷ pattern) [] = false
starts_with (c ∷ pattern) (d ∷ str) = if c == d then starts_with pattern str else false

unfoldable pub contains : Text → Text → Bool
unfolding starts_with
contains [] pattern = starts_with pattern []
contains (d ∷ str) pattern = starts_with pattern (d ∷ str) || contains str pattern

-- The loop from `tail_p` to `head_p`: an element is looked at after those behind it.
abbrev pub or_this : Option Text → Text → Text → Option Text
or_this (some found) elem pattern = some found
or_this none elem pattern = if contains elem pattern then some elem else none

unfoldable pub history_reverse_search : List Text → Text → Option Text
unfolding contains
history_reverse_search [] pattern = none
history_reverse_search (elem ∷ elems) pattern =
    or_this (history_reverse_search elems pattern) elem pattern
