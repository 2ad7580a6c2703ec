-- ===== src/Shell/Entered.antt =====
-- What a line that was typed and edited leaves in the shell of src/ml_shell.c.
use monolinux_c_library.Prelude.{
  ℕ, ◌+◌, ◌≡◌, ◌≤◌, refl, sym, ap, ◌∙◌, List, [], ◌∷◌, ◌++◌, Bool, true, false, none, some, length,
  length-append, append_assoc, All, arith, ◌==◌, if◌then◌else◌,
}
use monolinux_c_library.Prelude.Text.{Text}
use monolinux_c_library.Shell.Line.{Line, command_max}
use monolinux_c_library.Shell.Complete.{c_string}
use monolinux_c_library.Shell.History.{history_append, history_reset_current}
use monolinux_c_library.Shell.Keys.{Shell, is_blank, in_word}
use monolinux_c_library.Shell.Reader.{cleared, execute_line, read_command}
use monolinux_c_library.Shell.Editing.{
  Key, backspace, ctrl_h, home_key, end_key, begin, finish, delete, kill, transpose, word, right,
  left, typed, is_sendable, backwards, onto, drop_while, edit, At,
}
use monolinux_c_library.Shell.Typing.{IsSendable, sent_then, edits, entered, read_edited}

-- The text before the cursor and the text behind it.
abbrev pub whole : Text × Text → Text
whole (before, back) = backwards before ++ back

-- The NULs of a text, of which keys make none.
abbrev nuls : Text → ℕ
nuls [] = 0
nuls (ch ∷ text) = (if ch == 0 then 1 else 0) + nuls text

nuls-append : (xs ys : Text) → nuls (xs ++ ys) ≡ nuls xs + nuls ys
nuls-append [] ys = omega arith
nuls-append (x ∷ xs) ys = omega (arith, nuls-append xs ys)

nuls-backwards : (before : Text) → nuls (backwards before) ≡ nuls before
nuls-backwards [] = refl
nuls-backwards (a ∷ before) =
    omega (arith, nuls-append (backwards before) (a ∷ []), nuls-backwards before)

nuls-onto : (back before : Text) → nuls (onto before back) ≡ nuls before + nuls back
nuls-onto [] before = omega arith
nuls-onto (b ∷ back) before = omega (arith, nuls-onto back (b ∷ before))

nuls-drop_while : (test : ℕ → Bool) (back : Text) → nuls (drop_while test back) ≤ nuls back
unfolding drop_while
nuls-drop_while test [] = omega arith
nuls-drop_while test (b ∷ back) = ground (arith, nuls-drop_while test back)

-- Of both texts around a cursor.
abbrev nuls_of : Text × Text → ℕ
nuls_of p = nuls p.0 + nuls p.1

nuls-edit :
    (key : Key) (before back : Text)
    → is_sendable key ≡ true
    → nuls_of (edit key before back) ≤ nuls_of (before, back)
unfolding edit
nuls-edit backspace [] back h = omega arith
nuls-edit backspace (a ∷ before) back h = omega arith
nuls-edit ctrl_h [] back h = omega arith
nuls-edit ctrl_h (a ∷ before) back h = omega arith
nuls-edit home_key before back h =
    omega (arith, nuls-append (backwards before) back, nuls-backwards before)
nuls-edit end_key before back h = omega (arith, nuls-onto back before)
nuls-edit begin before back h =
    omega (arith, nuls-append (backwards before) back, nuls-backwards before)
nuls-edit finish before back h = omega (arith, nuls-onto back before)
nuls-edit delete before [] h = omega arith
nuls-edit delete before (b ∷ back) h = omega arith
nuls-edit kill before back h = omega arith
nuls-edit transpose [] back h = omega arith
nuls-edit transpose (a ∷ []) [] h = omega arith
nuls-edit transpose (b ∷ a ∷ before) [] h = omega arith
nuls-edit transpose (a ∷ []) (b ∷ back) h = omega arith
nuls-edit transpose (a ∷ c ∷ before) (b ∷ back) h = omega arith
nuls-edit word before back h =
    omega (arith, nuls-drop_while in_word (drop_while is_blank back), nuls-drop_while is_blank back)
nuls-edit right before [] h = omega arith
nuls-edit right before (b ∷ back) h = omega arith
nuls-edit left [] back h = omega arith
nuls-edit left (a ∷ before) back h = omega arith
nuls-edit (typed ch) before back h =
    let nonzero : (ch == 0) ≡ false = ground arith in ground (arith, nonzero)

nuls-edits :
    (keys : List Key) (before back : Text)
    → All IsSendable keys
    → nuls_of (edits keys before back) ≤ nuls_of (before, back)
nuls-edits [] before back a = omega arith
nuls-edits (key ∷ keys) before back (h, a) = omega (
  arith,
  nuls-edit key before back h,
  nuls-edits keys (edit key before back).0 (edit key before back).1 a,
)

c_string-whole : (text rest : Text) → nuls text ≤ 0 → c_string (text ++ (0 ∷ rest)) ≡ text
unfolding c_string
c_string-whole [] rest h = refl
c_string-whole (ch ∷ text) rest h =
    let nonzero : (ch == 0) ≡ false = ground arith in
    rw nonzero (ap (λ l. ch ∷ l) (c_string-whole text rest (omega arith)))

-- What is put in the history: the command that was entered, if it is not empty.
abbrev pub kept : Bool → List Text → Text → List Text
kept allocated elems text = if length text == 0 then elems else history_append allocated elems text

executed_line :
    (allocated : Bool) (self : Shell) (line : Line) (before back : Text)
    → At line before back
    → nuls_of (before, back) ≤ 0
    → let after = execute_line allocated (entered (cleared self) line) in
      (after.line ≡ line)
      × (after.history.elems ≡ kept allocated self.history.elems (whole (before, back)))
      × (after.history.current ≡ none)
unfolding execute_line history_reset_current
executed_line allocated self line before back v h =
    let text = backwards before ++ back in
    let e : line.length ≡ length text =
      omega (arith, v.end, length-append {0} (backwards before) back) in
    let b : c_string line.buf ≡ text =
      ap c_string (v.buf ∙ sym (append_assoc (backwards before) back (0 ∷ v.rest)))
      ∙ c_string-whole text v.rest
          (omega (arith, h, nuls-append (backwards before) back, nuls-backwards before)) in
    (refl, rw (e, b) refl, refl)

-- A line that is typed and edited with any sequence of the editing keys and of characters that are
-- no control codes, and a newline, is read whatever a shell, whose line buffer has the right size, did
-- before, and the input behind the newline is left. The line holds the outcome of those edits on the empty text. The history stays as
-- it is if the line is empty, and else has that text appended by history_append, and no element of it
-- is the current one. The keys are Backspace and Ctrl+H, Home and End, Ctrl+A, Ctrl+E, Ctrl+D, Ctrl+K,
-- Ctrl+T, Alt+D, and the arrows to the right and left; Ctrl+T swaps the character before the cursor
-- with the one at it, and at the end of the line the last two.
pub read_command-edits :
    (names : List Text) (allocated : Bool) (keys : List Key) (input : Text) (self : Shell)
    → length self.line.buf ≡ command_max
    → All IsSendable keys
    → (after : Shell) × (read_command names allocated (sent_then keys (10 ∷ input)) self
        ≡ some (after, input))
      × At after.line (edits keys [] []).0 (edits keys [] []).1
      × (after.history.elems ≡ kept allocated self.history.elems (whole (edits keys [] [])))
      × (after.history.current ≡ none)
read_command-edits names allocated keys input self h a =
    let (line, run, at) = read_edited names allocated keys input self h a in
    let (same_line, elems, current) =
      executed_line allocated self line (edits keys [] []).0 (edits keys [] []).1 at
        (nuls-edits keys [] [] a) in
    (execute_line allocated (entered (cleared self) line), run, rw same_line at, elems, current)
