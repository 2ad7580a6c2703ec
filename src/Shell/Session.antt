-- ===== src/Shell/Session.antt =====
-- From the bytes that are typed to the callbacks that run, src/ml_shell.c.
use monolinux_c_library.Libc.{Libc}
use monolinux_c_library.Prelude.{
  ℕ, zero, suc, ◌+◌, ◌-◌, ◌≡◌, ◌≤◌, ◌<◌, refl, ap, ◌∙◌, List, [], ◌∷◌, ◌++◌, map, none, some, Bool,
  true, false, All, length, length-append, arith, ◌==◌, if◌then◌else◌,
}
use monolinux_c_library.Prelude.Int.{ℤ}
use monolinux_c_library.Prelude.Text.{Text, codes}
use monolinux_c_library.Utilities.Strip.{strip}
use monolinux_c_library.Shell.Line.{Line, command_max}
use monolinux_c_library.Shell.Zipper.{Shows}
use monolinux_c_library.Shell.Parse.{is_comment}
use monolinux_c_library.Shell.Quoting.{command, IsQuotable, strip-command}
use monolinux_c_library.Shell.Complete.{c_string, same_prefix}
use monolinux_c_library.Shell.Editing.{typed, is_typed, onto, edit}
use monolinux_c_library.Shell.Moves.{backwards-onto}
use monolinux_c_library.Shell.Keys.{Shell}
use monolinux_c_library.Shell.Reader.{cleared, execute_line, read_command}
use monolinux_c_library.Shell.Typing.{IsSendable, sent_then, edits, entered, read_edited}
use monolinux_c_library.Shell.Registry.{Command, start, dispatch}
use monolinux_c_library.Shell.Names.{lookup}
use monolinux_c_library.Shell.Dispatch.{IsUnique, execute_command-command}
use monolinux_c_library.Shell.Main.{
  is_exit, Outcome, exited, ran, ran_line, has_exited, main_loop, shell_main,
}

-- Text without control codes.
abbrev pub IsTyped : ℕ → Type 0
IsTyped ch = is_typed ch ≡ true

sent_typed : (text input : Text) → sent_then (map typed text) input ≡ text ++ input
sent_typed [] input = refl
sent_typed (ch ∷ text) input = ap (λ l. ch ∷ l) (sent_typed text input)

typed-IsSendable : (text : Text) → All IsTyped text → All IsSendable (map typed text)
typed-IsSendable [] a = tt
typed-IsSendable (ch ∷ text) a = (a.0, typed-IsSendable text a.1)

edit_typed :
    (ch : ℕ) (before : Text)
    → length before < command_max - 1
    → edit (typed ch) before [] ≡ (ch ∷ before, [])
unfolding edit
edit_typed ch before h =
    let room : (length before + 0 == command_max - 1) ≡ false = ground arith in rw room refl

edits_typed :
    (text before : Text)
    → length before + length text < command_max
    → edits (map typed text) before [] ≡ (onto before text, [])
edits_typed [] before h = refl
edits_typed (ch ∷ text) before h =
    ap (λ p. edits (map typed text) p.0 p.1) (edit_typed ch before (omega arith))
    ∙ edits_typed text (ch ∷ before) (omega arith)

c_string-typed : (text rest : Text) → All IsTyped text → c_string (text ++ (0 ∷ rest)) ≡ text
unfolding c_string
c_string-typed [] rest a = refl
c_string-typed (ch ∷ text) rest a =
    let nonzero : (ch == 0) ≡ false = ground arith in
    rw nonzero (ap (λ l. ch ∷ l) (c_string-typed text rest a.1))

-- The line that a text was typed into.
pub record Holds (line : Line) (text : Text) : Type 0 where
  pub buf : c_string line.buf ≡ text
  pub size : length line.buf ≡ command_max
  pub end : line.length ≡ length text

Shows-Holds : (line : Line) (text : Text) → All IsTyped text → Shows line text [] → Holds line text
Shows-Holds line text a v = record {
  buf = rw v.buf (c_string-typed text v.rest a);
  size = v.size;
  end = omega (arith, v.end);
}

pub read_typed :
    (names : List Text) (allocated : Bool) (text input : Text) (self : Shell)
    → length self.line.buf ≡ command_max
    → length text < command_max
    → All IsTyped text
    → (line : Line) × (read_command names allocated (text ++ (10 ∷ input)) self
        ≡ some (execute_line allocated (entered (cleared self) line), input))
      × Holds line text
read_typed names allocated text input self h n a =
    let (line, run, at) =
      read_edited names allocated (map typed text) input self h (typed-IsSendable text a) in
    let shown : Shows line text [] =
      rw (edits_typed text [] (omega arith), backwards-onto text []) at at in
    (line, rw (sent_typed text (10 ∷ input)) at run, Shows-Holds line text a shown)

command-starts :
    (name : Text) (args : List Text)
    → (is_comment (command (name ∷ args)) ≡ false)
      × (is_exit (command (name ∷ args)) ≡ false)
      × (0 < length (command (name ∷ args)))
unfolding is_comment is_exit same_prefix
command-starts name [] = (refl, refl, omega arith)
command-starts name (arg ∷ args) = (refl, refl, omega arith)

exit_stripped :
    (strip (codes "exit") none ≡ codes "exit")
    × (is_comment (codes "exit") ≡ false)
    × (is_exit (codes "exit") ≡ true)
unfolding strip is_comment is_exit same_prefix
exit_stripped = (refl, refl, refl)

executed :
    (allocated : Bool) (self : Shell) {line : Line} {text : Text}
    → Holds line text
    → Holds (execute_line allocated (entered (cleared self) line)).line text
unfolding execute_line
executed allocated self h = h

-- A command line that can be typed: between 1 and 32 arguments, none with a control code or a
-- backslash at its end, which fit into the line when they are quoted.
pub record IsTypable (name : Text) (args : List Text) : Type 0 where
  pub few : length args < 32
  pub quotable : All IsQuotable (name ∷ args)
  pub typable : All IsTyped (command (name ∷ args))
  pub fits : length (command (name ∷ args)) < command_max

-- What is typed: command lines, and then `exit`.
abbrev pub session : List (Text × List Text) → Text → Text
session [] input = codes "exit" ++ (10 ∷ input)
session ((name, args) ∷ lines) input = command (name ∷ args) ++ (10 ∷ session lines input)

length-session :
    (lines : List (Text × List Text)) (input : Text) → length lines ≤ length (session lines input)
length-session [] input = omega arith
length-session ((name, args) ∷ lines) input = omega (
  arith,
  length-session lines input,
  length-append {0} (command (name ∷ args)) (10 ∷ session lines input),
)

module _ (libc : Libc Command) {W : Type 0} (call : ℕ → List Text → W → ℤ × W) where
  -- The callbacks of the lines, in order.
  abbrev pub runs : List Command → List (Text × List Text) → W → W
  runs commands [] world = world
  runs commands ((name, args) ∷ lines) world =
      runs commands lines (dispatch libc call (lookup name commands) (name ∷ args) world).1

  ran-command :
      (commands : List Command) (name : Text) (args : List Text) (self : Shell) (world : W)
      → IsUnique commands
      → IsTypable name args
      → Holds self.line (command (name ∷ args))
      → let done = dispatch libc call (lookup name commands) (name ∷ args) world in
        ran_line libc call (start libc commands) self world ≡ (ran done.0, done.1)
  ran-command commands name args self world u t h =
      let (hash, exit, some_text) = command-starts name args in
      let nonempty : (self.line.length == 0) ≡ false = ground (arith, h.end) in
      rw (nonempty, h.buf, strip-command name args, hash, exit)
        (ap (λ r. (ran r.0, r.1))
          (execute_command-command libc call commands name args world u t.few t.quotable))

  ran-exit :
      (commands : List Command) (self : Shell) (world : W)
      → Holds self.line (codes "exit")
      → ran_line libc call commands self world ≡ (exited, world)
  ran-exit commands self world h =
      let nonempty : (self.line.length == 0) ≡ false = ground (arith, h.end) in
      rw (nonempty, h.buf, exit_stripped.0, exit_stripped.1, exit_stripped.2) refl

  step-main_loop :
      (commands : List Command) (allocated : Bool) (rounds : ℕ) (input input' : Text)
      (self self' : Shell) (world world' : W) (outcome : Outcome)
      → read_command (map (λ c. c.name) commands) allocated input self ≡ some (self', input')
      → ran_line libc call commands self' world ≡ (outcome, world')
      → main_loop libc call commands allocated (suc rounds) input self world ≡ (
          if has_exited outcome
          then some (world', input')
          else main_loop libc call commands allocated rounds input' self' world')
  unfolding main_loop
  step-main_loop commands allocated rounds input input' self self' world world' outcome e r =
      rw (main_loop, e, r) refl

  loop-session :
      (commands : List Command) (allocated : Bool) (lines : List (Text × List Text)) (rounds : ℕ)
      (input : Text) (self : Shell) (world : W)
      → IsUnique commands
      → All (λ l. IsTypable l.0 l.1) lines
      → length self.line.buf ≡ command_max
      → suc (length lines) ≤ rounds
      → main_loop libc call (start libc commands) allocated rounds (session lines input) self world
        ≡ some (runs commands lines world, input)
  loop-session commands allocated lines zero input self world u t h r = absurd (omega arith)
  loop-session commands allocated [] (suc rounds) input self world u t h r =
      let names = map (λ c. c.name) (start libc commands) in
      let (line, run, holds) =
        read_typed names allocated (codes "exit") input self h (omega arith)
          (refl, (refl, (refl, (refl, tt)))) in
      let self' = execute_line allocated (entered (cleared self) line) in
      step-main_loop (start libc commands) allocated rounds (session [] input) input self self'
        world world exited run
        (ran-exit (start libc commands) self' world (executed allocated self holds))
  loop-session commands allocated ((name, args) ∷ lines) (suc rounds) input self world u t h r =
      let names = map (λ c. c.name) (start libc commands) in
      let text = command (name ∷ args) in
      let (line, run, holds) =
        read_typed names allocated text (session lines input) self h t.0.fits t.0.typable in
      let self' = execute_line allocated (entered (cleared self) line) in
      let done = dispatch libc call (lookup name commands) (name ∷ args) world in
      step-main_loop (start libc commands) allocated rounds (text ++ (10 ∷ session lines input))
        (session lines input) self self' world done.1 (ran done.0) run
        (ran-command commands name args self' world u t.0 (executed allocated self holds))
      ∙ loop-session commands allocated lines rounds input self' done.1 u t.1
          (executed allocated self holds).size (omega arith)

  -- Where no two commands have the same name, command lines that are typed one after the other,
  -- whatever state the shell is in, each run the callback that was registered by their name, in the
  -- order typed, once and with the arguments that were quoted; a line whose name no command has runs
  -- nothing. `exit` then ends the shell's loop, and the input behind it is left. A line has between 1
  -- and 32 quoted arguments, no control code, no backslash at an argument's end, and fits the buffer.
  pub shell_main-session :
      (commands : List Command) (allocated : Bool) (lines : List (Text × List Text)) (input : Text)
      (self : Shell) (world : W)
      → IsUnique commands
      → All (λ l. IsTypable l.0 l.1) lines
      → length self.line.buf ≡ command_max
      → shell_main libc call (start libc commands) allocated (session lines input) self world
        ≡ some (runs commands lines world, input)
  unfolding shell_main
  shell_main-session commands allocated lines input self world u t h =
      loop-session commands allocated lines (suc (length (session lines input))) input self world u
        t h (omega (arith, length-session lines input))
