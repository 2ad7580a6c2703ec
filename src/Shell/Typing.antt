-- ===== src/Shell/Typing.antt =====
-- read_command of src/ml_shell.c on the bytes of editing keys and a newline.
use monolinux_c_library.Prelude.{
  ℕ, zero, suc, ◌+◌, ◌≡◌, ◌≤◌, refl, ◌∙◌, List, [], ◌∷◌, ◌++◌, Bool, true, false, some, length, All,
  length-append, arith, ◌==◌,
}
use monolinux_c_library.Prelude.Int.{pos, negsuc}
use monolinux_c_library.Prelude.Text.{Text}
use monolinux_c_library.Shell.Line.{
  Line, command_max, line_init, line_insert, line_delete, line_truncate, line_seek, line_seek_begin,
  line_seek_end,
}
use monolinux_c_library.Shell.Zipper.{line_delete_lem}
use monolinux_c_library.Shell.Keys.{
  Shell, with_line, handle_backspace, handle_ctrl_t, handle_arrow, handle_home_end, handle_alt,
  delete_word,
}
use monolinux_c_library.Shell.Reader.{
  handle, save_line, execute_line, cleared, read_loop, read_command,
}
use monolinux_c_library.Shell.Editing.{
  Key, backspace, ctrl_h, home_key, end_key, begin, finish, delete, kill, transpose, word, right,
  left, typed, key_bytes, is_typed, is_sendable, backwards, edit, At,
}
use monolinux_c_library.Shell.Moves.{
  seek_left, seek_left_nil, seek_right, seek_right_nil, seek_begin, seek_end, delete_nil,
}
use monolinux_c_library.Shell.Edits.{truncate, erase_before, inserted-At, exchange, word_deleted}

-- The line after a key.
abbrev pub pressed : Key → Line → Line
pressed backspace line = handle_backspace line
pressed ctrl_h line = handle_backspace line
pressed home_key line = line_seek_begin line
pressed end_key line = line_seek_end line
pressed begin line = line_seek_begin line
pressed finish line = line_seek_end line
pressed delete line = line_delete line
pressed kill line = line_truncate line
pressed transpose line = handle_ctrl_t line
pressed word line = delete_word line
pressed right line = (line_seek line (pos 1)).0
pressed left line = (line_seek line (negsuc 0)).0
pressed (typed ch) line = (line_insert line ch).0

handle-typed :
    (names : List Text) (ch : ℕ) (input : Text) (self : Shell)
    → is_typed ch ≡ true
    → handle names ch input self ≡ some (with_line self (line_insert self.line ch).0, input)
unfolding handle
handle-typed names ch input self h =
    let tab : (ch == 9) ≡ false = ground arith in
    let cr : (ch == 13) ≡ false = ground arith in
    let nl : (ch == 10) ≡ false = ground arith in
    let del : (ch == 127) ≡ false = ground arith in
    let bs : (ch == 8) ≡ false = ground arith in
    let a : (ch == 1) ≡ false = ground arith in
    let e : (ch == 5) ≡ false = ground arith in
    let d : (ch == 4) ≡ false = ground arith in
    let k : (ch == 11) ≡ false = ground arith in
    let t : (ch == 20) ≡ false = ground arith in
    let r : (ch == 18) ≡ false = ground arith in
    let esc : (ch == 27) ≡ false = ground arith in
    rw (tab, cr, nl, del, bs, a, e, d, k, t, r, esc) refl

handle-sent :
    (names : List Text) (key : Key) (input : Text) (self : Shell)
    → is_sendable key ≡ true
    → handle names (key_bytes key).0 ((key_bytes key).1 ++ input) self
      ≡ some (with_line self (pressed key self.line), input)
unfolding handle handle_alt handle_arrow handle_home_end
handle-sent names backspace input self h = refl
handle-sent names ctrl_h input self h = refl
handle-sent names home_key input self h = refl
handle-sent names end_key input self h = refl
handle-sent names begin input self h = refl
handle-sent names finish input self h = refl
handle-sent names delete input self h = refl
handle-sent names kill input self h = refl
handle-sent names transpose input self h = refl
handle-sent names word [] self h = refl
handle-sent names word (ch ∷ input) self h = refl
handle-sent names right input self h = refl
handle-sent names left input self h = refl
handle-sent names (typed ch) input self h = handle-typed names ch input self h

pressed-edit :
    (key : Key) (line : Line) (before back : Text)
    → At line before back
    → At (pressed key line) (edit key before back).0 (edit key before back).1
unfolding edit
pressed-edit backspace line before back v = erase_before line before back v
pressed-edit ctrl_h line before back v = erase_before line before back v
pressed-edit home_key line before back v = seek_begin line before back v
pressed-edit end_key line before back v = seek_end line before back v
pressed-edit begin line before back v = seek_begin line before back v
pressed-edit finish line before back v = seek_end line before back v
pressed-edit delete line before [] v = rw (delete_nil line before v) v
pressed-edit delete line before (b ∷ back) v = line_delete_lem line (backwards before) back b v
pressed-edit kill line before back v = truncate line before back v
pressed-edit transpose line before back v = exchange line before back v
pressed-edit word line before back v = word_deleted line before back v
pressed-edit right line before [] v = rw (seek_right_nil line before v) v
pressed-edit right line before (b ∷ back) v = seek_right line b before back v
pressed-edit left line [] back v = rw (pressed, seek_left_nil line back v) v
pressed-edit left line (a ∷ before) back v = (seek_left line a before back v).1
pressed-edit (typed ch) line before back v = inserted-At line ch before back v

-- An editing key, sent as its bytes, is handled as that edit of the text with the cursor, at every
-- position of the cursor and on a full line too; only its bytes are taken from the input, and
-- nothing of the shell but the line changes.
pub handle-edit :
    (names : List Text) (key : Key) (input : Text) (self : Shell) (before back : Text)
    → At self.line before back
    → is_sendable key ≡ true
    → (line : Line) × (handle names (key_bytes key).0 ((key_bytes key).1 ++ input) self
        ≡ some (with_line self line, input))
      × At line (edit key before back).0 (edit key before back).1
handle-edit names key input self before back v h = (
  pressed key self.line,
  handle-sent names key input self h,
  pressed-edit key self.line before back v,
)

abbrev pub IsSendable : Key → Type 0
IsSendable key = is_sendable key ≡ true

-- The bytes of keys, in front of more input.
abbrev pub sent_then : List Key → Text → Text
sent_then [] input = input
sent_then (key ∷ keys) input = (key_bytes key).0 ∷ ((key_bytes key).1 ++ sent_then keys input)

abbrev pub edits : List Key → Text → Text → Text × Text
edits [] before back = (before, back)
edits (key ∷ keys) before back = edits keys (edit key before back).0 (edit key before back).1

abbrev pressed_all : List Key → Line → Line
pressed_all [] line = line
pressed_all (key ∷ keys) line = pressed_all keys (pressed key line)

pressed_all-edits :
    (keys : List Key) (line : Line) (before back : Text)
    → At line before back
    → At (pressed_all keys line) (edits keys before back).0 (edits keys before back).1
pressed_all-edits [] line before back v = v
pressed_all-edits (key ∷ keys) line before back v =
    pressed_all-edits keys (pressed key line) (edit key before back).0 (edit key before back).1
      (pressed-edit key line before back v)

-- The shell when the newline is read.
abbrev pub entered : Shell → Line → Shell
entered self line = record self { line = line; prev_line = line; newline_received = true }

step-read_loop :
    (names : List Text) (allocated : Bool) (ch rounds : ℕ) (input input' : Text)
    (self self' : Shell)
    → handle names ch input (save_line self) ≡ some (self', input')
    → self'.newline_received ≡ false
    → read_loop names allocated (suc rounds) (ch ∷ input) self
      ≡ read_loop names allocated rounds input' self'
unfolding read_loop
step-read_loop names allocated ch rounds input input' self self' e h = rw (read_loop, e, h) refl

key-read_loop :
    (names : List Text) (allocated : Bool) (key : Key) (rounds : ℕ) (input : Text) (self : Shell)
    → self.newline_received ≡ false
    → is_sendable key ≡ true
    → read_loop names allocated (suc rounds) ((key_bytes key).0 ∷ ((key_bytes key).1 ++ input)) self
      ≡ read_loop names allocated rounds input (with_line (save_line self) (pressed key self.line))
key-read_loop names allocated key rounds input self h s =
    step-read_loop names allocated (key_bytes key).0 rounds ((key_bytes key).1 ++ input) input self
      (with_line (save_line self) (pressed key self.line))
      (handle-sent names key input (save_line self) s) h

newline-read_loop :
    (names : List Text) (allocated : Bool) (rounds : ℕ) (input : Text) (self : Shell)
    → read_loop names allocated (suc rounds) (10 ∷ input) self
      ≡ some (execute_line allocated (entered self self.line), input)
unfolding read_loop handle
newline-read_loop names allocated rounds input self = refl

keys-read_loop :
    (names : List Text) (allocated : Bool) (keys : List Key) (rounds : ℕ) (input : Text)
    (self : Shell)
    → self.newline_received ≡ false
    → suc (length keys) ≤ rounds
    → All IsSendable keys
    → read_loop names allocated rounds (sent_then keys (10 ∷ input)) self
      ≡ some (execute_line allocated (entered self (pressed_all keys self.line)), input)
keys-read_loop names allocated keys zero input self h e a = absurd (omega arith)
keys-read_loop names allocated [] (suc rounds) input self h e a =
    newline-read_loop names allocated rounds input self
keys-read_loop names allocated (key ∷ keys) (suc rounds) input self h e (s, a) =
    key-read_loop names allocated key rounds (sent_then keys (10 ∷ input)) self h s
    ∙ keys-read_loop names allocated keys rounds input
        (with_line (save_line self) (pressed key self.line)) h (omega arith) a

length-sent_then :
    (keys : List Key) (input : Text) → length keys + length input ≤ length (sent_then keys input)
length-sent_then [] input = omega arith
length-sent_then (key ∷ keys) input =
    omega (
      arith,
      length-sent_then keys input,
      length-append {0} (key_bytes key).1 (sent_then keys input),
    )

empty-At :
    (line : Line) (buf : Text)
    → line.buf ≡ buf
    → length buf ≡ command_max
    → At (line_init line) [] []
unfolding line_init
empty-At line [] e h = absurd (omega arith)
empty-At line (x ∷ rest) e h =
    rw e (record { rest = rest; buf = refl; size = h; cursor = refl; end = refl })

-- The line that keys make, which is read, and executed as it was entered.
pub read_edited :
    (names : List Text) (allocated : Bool) (keys : List Key) (input : Text) (self : Shell)
    → length self.line.buf ≡ command_max
    → All IsSendable keys
    → (line : Line) × (read_command names allocated (sent_then keys (10 ∷ input)) self
        ≡ some (execute_line allocated (entered (cleared self) line), input))
      × At line (edits keys [] []).0 (edits keys [] []).1
unfolding read_command
read_edited names allocated keys input self h a = (
  pressed_all keys (line_init self.line),
  keys-read_loop names allocated keys (length (sent_then keys (10 ∷ input))) input (cleared self)
      refl (omega (arith, length-sent_then keys (10 ∷ input))) a,
  pressed_all-edits keys (line_init self.line) [] [] (empty-At self.line self.line.buf refl h),
)
