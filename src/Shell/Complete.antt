-- ===== src/Shell/Complete.antt =====
-- Completion of a command name, auto_complete_command of src/ml_shell.c. What it prints is left out.
use monolinux_c_library.Prelude.{
  ℕ, zero, suc, ◌+◌, List, [], ◌∷◌, Bool, true, false, ◌&&◌, length, get_or, ◌==◌, if◌then◌else◌,
}
use monolinux_c_library.Prelude.Text.{Text}
use monolinux_c_library.Shell.Line.{Line, line_insert}

-- The C string at the start of a buffer.
unfoldable pub c_string : List ℕ → Text
c_string [] = []
c_string (c ∷ buf) = if c == 0 then [] else c ∷ c_string buf

-- strncmp() comes to 0.
unfoldable pub same_prefix : ℕ → Text → Text → Bool
same_prefix zero s t = true
same_prefix (suc n) [] [] = true
same_prefix (suc n) (a ∷ s) (b ∷ t) = a == b && same_prefix n s t
same_prefix (suc n) _ _ = false

-- The first command that matches the line, with those behind it.
unfoldable pub matching : ℕ → Text → List Text → List Text
unfolding same_prefix
matching size line [] = []
matching size line (name ∷ names) =
    if same_prefix size name line then name ∷ names else matching size line names

-- The inner loop: whether all commands that match have the same next character.
unfoldable pub all_next : ℕ → ℕ → Text → List Text → Bool
unfolding same_prefix
all_next next_char size line [] = true
all_next next_char size line (name ∷ names) =
    if same_prefix size name line
    then if get_or name size 0 == next_char then all_next next_char size line names else false
    else true

-- The outer loop, over `size`; `name` is the first match, and `names` starts with it. It ends at the
-- latest behind the last character of `name`, so its length bounds the rounds.
unfoldable pub complete_loop : ℕ → Text → List Text → ℕ → Line → Line
unfolding all_next c_string
complete_loop zero name names size self = self
complete_loop (suc rounds) name names size self =
    let next_char = get_or name size 0 in
    let more = complete_loop rounds name names (size + 1) (line_insert self next_char).0 in
    if all_next next_char size (c_string self.buf) names
    then if next_char == 0 then (line_insert self 32).0 else more
    else self

abbrev pub complete_from : List Text → Line → Line
complete_from [] self = self
complete_from (name ∷ names) self =
    complete_loop (length name + 1) name (name ∷ names) self.length self

unfoldable pub auto_complete_command : List Text → Line → Line
unfolding matching complete_loop c_string
auto_complete_command names self =
    complete_from (matching self.length (c_string self.buf) names) self
