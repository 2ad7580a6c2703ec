-- ===== src/Shell/Editing.antt =====
-- The keys that edit a line, as edits of a text with a cursor: the text before the cursor, the last
-- character first, and the text behind it.
use monolinux_c_library.Prelude.{
  ℕ, ◌+◌, ◌-◌, [], ◌∷◌, ◌++◌, Bool, true, not, ◌&&◌, length, leb, ◌==◌, if◌then◌else◌,
}
use monolinux_c_library.Prelude.Text.{Text}
use monolinux_c_library.Shell.Line.{Line, command_max}
use monolinux_c_library.Shell.Zipper.{Shows}
use monolinux_c_library.Shell.Keys.{is_blank, in_word}

pub data Key : Type 0 where
  backspace : Key
  ctrl_h : Key
  home_key : Key
  end_key : Key
  begin : Key
  finish : Key
  delete : Key
  kill : Key
  transpose : Key
  word : Key
  right : Key
  left : Key
  typed : ℕ → Key

-- The bytes that the terminal sends for a key.
abbrev pub key_bytes : Key → ℕ × Text
key_bytes backspace = (127, [])
key_bytes ctrl_h = (8, [])
key_bytes home_key = (27, b'O' ∷ b'H' ∷ [])
key_bytes end_key = (27, b'O' ∷ b'F' ∷ [])
key_bytes begin = (1, [])
key_bytes finish = (5, [])
key_bytes delete = (4, [])
key_bytes kill = (11, [])
key_bytes transpose = (20, [])
key_bytes word = (27, b'd' ∷ [])
key_bytes right = (27, b'[' ∷ b'C' ∷ [])
key_bytes left = (27, b'[' ∷ b'D' ∷ [])
key_bytes (typed ch) = (ch, [])

-- A character, and no control code.
abbrev pub is_typed : ℕ → Bool
is_typed ch = leb 32 ch && not (ch == 127)

abbrev pub is_sendable : Key → Bool
is_sendable (typed ch) = is_typed ch
is_sendable _ = true

abbrev pub backwards : Text → Text
backwards [] = []
backwards (ch ∷ before) = backwards before ++ (ch ∷ [])

-- The characters of the second text in front of the first, the first one last.
abbrev pub onto : Text → Text → Text
onto before [] = before
onto before (ch ∷ back) = onto (ch ∷ before) back

unfoldable pub drop_while : (ℕ → Bool) → Text → Text
drop_while test [] = []
drop_while test (ch ∷ back) = if test ch then drop_while test back else ch ∷ back

abbrev pub insert : ℕ → Text → Text → Text × Text
insert ch before back =
    if length before + length back == command_max - 1 then (before, back) else (ch ∷ before, back)

-- What a key does. Ctrl+T swaps the character before the cursor with the one at it, and at the end of
-- the line the last two.
unfoldable pub edit : Key → Text → Text → Text × Text
unfolding drop_while
edit backspace [] back = ([], back)
edit backspace (a ∷ before) back = (before, back)
edit ctrl_h [] back = ([], back)
edit ctrl_h (a ∷ before) back = (before, back)
edit home_key before back = ([], backwards before ++ back)
edit end_key before back = (onto before back, [])
edit begin before back = ([], backwards before ++ back)
edit finish before back = (onto before back, [])
edit delete before [] = (before, [])
edit delete before (b ∷ back) = (before, back)
edit kill before back = (before, [])
edit transpose [] back = ([], back)
edit transpose (a ∷ []) [] = (a ∷ [], [])
edit transpose (b ∷ a ∷ before) [] = (a ∷ b ∷ before, [])
edit transpose (a ∷ before) (b ∷ back) = (a ∷ b ∷ before, back)
edit word before back = (before, drop_while in_word (drop_while is_blank back))
edit right before [] = (before, [])
edit right before (b ∷ back) = (b ∷ before, back)
edit left [] back = ([], back)
edit left (a ∷ before) back = (before, a ∷ back)
edit (typed ch) before back = insert ch before back

abbrev pub At : Line → Text → Text → Type 0
At self before back = Shows self (backwards before) back
