-- ===== src/Shell/Tests.antt =====
-- A shell with the line "ac", the cursor between the two characters, and two commands.
use monolinux_c_library.LibcReference.{reference}
use monolinux_c_library.Prelude.{
  ℕ, ◌≡◌, refl, List, [], ◌∷◌, none, some, true, false, replicate, arith,
}
use monolinux_c_library.Prelude.Int.{ℤ, pos}
use monolinux_c_library.Prelude.Text.{Text, codes, same}
use monolinux_c_library.Shell.Line.{Line, line_insert, line_peek}
use monolinux_c_library.Shell.Parse.{parse_command}
use monolinux_c_library.Shell.Quoting.{command, parse_command-command}
use monolinux_c_library.Shell.History.{History, history_append, is_last}
use monolinux_c_library.Shell.Recall.{IsHistory, history_append_lem}
use monolinux_c_library.Shell.Complete.{auto_complete_command, c_string}
use monolinux_c_library.Shell.Editing.{Key, backspace, left, typed, edit, At}
use monolinux_c_library.Shell.Keys.{Shell}
use monolinux_c_library.Shell.Reader.{read_command}
use monolinux_c_library.Shell.Typing.{sent_then, edits}
use monolinux_c_library.Shell.Entered.{whole, kept, read_command-edits}
use monolinux_c_library.Shell.Registry.{Command, start}
use monolinux_c_library.Shell.Names.{lookup}
use monolinux_c_library.Shell.Dispatch.{IsUnique}
use monolinux_c_library.Shell.Main.{shell_main}
use monolinux_c_library.Shell.Session.{session, runs, IsTypable, shell_main-session}

abbrev two_characters : Line
two_characters = record { buf = 97 ∷ 99 ∷ 0 ∷ replicate 253 0; length = 2; cursor = 1 }

two_characters-At : At two_characters (97 ∷ []) (99 ∷ [])
two_characters-At = record {
  rest = replicate 253 0;
  buf = refl;
  size = refl;
  cursor = refl;
  end = refl;
}

inserted_between :
    (line_insert two_characters 98).0
    ≡ record { buf = 97 ∷ 98 ∷ 99 ∷ 0 ∷ replicate 252 0; length = 3; cursor = 2 }
unfolding line_insert
inserted_between = refl

peek_behind : line_peek two_characters ≡ 99
unfolding line_peek
peek_behind = refl

abbrev two_elems : List Text
two_elems = codes "ls -l" ∷ codes "df" ∷ []

two_elems-IsHistory : IsHistory two_elems
unfolding same
two_elems-IsHistory = record { bounded = omega arith; fresh = (refl, tt) }

abbrev two_recalled : History
two_recalled = record { elems = two_elems; current = none; line = []; line_valid = false }

abbrev shell : Shell
shell = record {
  line = two_characters;
  prev_line = two_characters;
  carriage_return_received = true;
  newline_received = true;
  history = two_recalled;
  pattern = two_characters;
  found = two_characters;
}

-- "sx", the last character erased, and "l" in front of the first one.
abbrev four_keys : List Key
four_keys = typed b's' ∷ typed b'x' ∷ backspace ∷ left ∷ typed b'l' ∷ []

four_keys-edits : edits four_keys [] [] ≡ (codes "l", codes "s")
unfolding edit
four_keys-edits = refl

read_command-edits_example :
    (after : Shell) × (read_command [] true (sent_then four_keys (10 ∷ 33 ∷ [])) shell
      ≡ some (after, 33 ∷ []))
    × At after.line (edits four_keys [] []).0 (edits four_keys [] []).1
    × (after.history.elems ≡ kept true two_elems (whole (edits four_keys [] [])))
    × (after.history.current ≡ none)
read_command-edits_example =
    read_command-edits [] true four_keys (33 ∷ []) shell refl
      (refl, (refl, (refl, (refl, (refl, tt)))))

parse_command-command_example :
    parse_command (command (codes "ls" ∷ codes "a \"b" ∷ []))
    ≡ some (codes "ls" ∷ codes "a \"b" ∷ [])
parse_command-command_example =
    parse_command-command (codes "ls") (codes "a \"b" ∷ []) (omega arith)
      ((λ e. absurd (omega (arith, e))), ((λ e. absurd (omega (arith, e))), tt))

parse_plain : parse_command (codes "ls -l") ≡ some (codes "ls" ∷ codes "-l" ∷ [])
unfolding parse_command
parse_plain = refl

history_append_lem_example :
    IsHistory (history_append true two_elems (codes "ls"))
    × (is_last (history_append true two_elems (codes "ls")) (codes "ls") ≡ true)
history_append_lem_example = history_append_lem true two_elems (codes "ls") two_elems-IsHistory

abbrev two_commands : List Command
two_commands =
    record { name = codes "ls"; description = []; callback = 5 }
    ∷ record { name = codes "df"; description = []; callback = 6 }
    ∷ []

two_commands-IsUnique : IsUnique two_commands
unfolding same
two_commands-IsUnique [] = omega arith
two_commands-IsUnique (c ∷ name) = ground arith

-- A call is noted down, and its result is 0.
abbrev noted : ℕ → List Text → List (ℕ × List Text) → ℤ × List (ℕ × List Text)
noted callback args world = (pos 0, (callback, args) ∷ world)

df-IsTypable : IsTypable (codes "df") []
df-IsTypable = record {
  few = omega arith;
  quotable = ((λ e. absurd (omega (arith, e))), tt);
  typable = (refl, (refl, (refl, (refl, tt))));
  fits = omega arith;
}

shell_main-session_example :
    shell_main reference noted
      (start reference two_commands)
      true
      (session ((codes "df", []) ∷ []) (33 ∷ []))
      shell
      []
    ≡ some (runs reference noted two_commands ((codes "df", []) ∷ []) [], 33 ∷ [])
shell_main-session_example =
    shell_main-session reference noted two_commands true ((codes "df", []) ∷ []) (33 ∷ []) shell []
      two_commands-IsUnique (df-IsTypable, tt) refl

session_runs :
    runs reference noted two_commands ((codes "df", []) ∷ []) [] ≡ (6, codes "df" ∷ []) ∷ []
unfolding lookup same
session_runs = refl

-- TAB with the cursor at the beginning of "he" does not make it "help ".
tab_in_front :
    c_string
      (auto_complete_command
        (codes "help" ∷ [])
        (record { buf = 104 ∷ 101 ∷ 0 ∷ replicate 253 0; length = 2; cursor = 0 })).buf
    ≡ codes "lp he"
unfolding auto_complete_command line_insert c_string
tab_in_front = refl

-- With the cursor at the end it does.
tab_at_end :
    c_string
      (auto_complete_command
        (codes "help" ∷ [])
        (record { buf = 104 ∷ 101 ∷ 0 ∷ replicate 253 0; length = 2; cursor = 2 })).buf
    ≡ codes "help "
unfolding auto_complete_command line_insert c_string
tab_at_end = refl
