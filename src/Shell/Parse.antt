-- ===== src/Shell/Parse.antt =====
-- The command parser of src/ml_shell.c. A line is edited in place: `done` is what stands between the
-- argument's first character and `line_p`, and `line` what stands from `line_p` on.
use monolinux_c_library.Prelude.{
  ℕ, zero, suc, List, [], ◌∷◌, ◌++◌, Option, none, some, Bool, true, false, ◌==◌, if◌then◌else◌,
}
use monolinux_c_library.Prelude.Text.{Text}
use monolinux_c_library.Utilities.Strip.{strip}

abbrev pub quote : ℕ
quote = b'"'

abbrev pub backslash : ℕ
backslash = b'\\'

abbrev pub space : ℕ
space = b' '

-- The loop of parse_argument: the argument and the line behind it, or a null pointer. A backslash is
-- removed in front of a quote, which is then stepped over.
unfoldable pub parse_loop : Bool → Text → Text → Option (Text × Text)
parse_loop in_quote done [] = if in_quote then none else some (done, [])
parse_loop in_quote done (c ∷ []) =
    if c == backslash
    then parse_loop in_quote (done ++ (c ∷ [])) []
    else if c == quote
    then parse_loop (if in_quote then false else true) done []
    else if in_quote
    then parse_loop in_quote (done ++ (c ∷ [])) []
    else if c == space
    then some (done, [])
    else parse_loop in_quote (done ++ (c ∷ [])) []
parse_loop in_quote done (c ∷ d ∷ line) =
    let escaped = parse_loop in_quote (done ++ (d ∷ [])) line in
    let kept = parse_loop in_quote (done ++ (c ∷ [])) (d ∷ line) in
    let toggled = parse_loop (if in_quote then false else true) done (d ∷ line) in
    if c == backslash
    then if d == quote then escaped else kept
    else if c == quote
    then toggled
    else if in_quote
    then kept
    else if c == space
    then some (done, d ∷ line)
    else kept

unfoldable pub parse_argument : Text → Option (Text × Text)
unfolding parse_loop
parse_argument line = parse_loop false [] line

abbrev pub argument : Text → Option (List Text) → Option (List Text)
argument arg none = none
argument arg (some args) = some (arg ∷ args)

-- The loop of parse_command, with the number of arguments that `argv` still takes.
unfoldable pub parse_arguments : ℕ → Text → Option (List Text)
unfolding parse_argument strip
parse_arguments room [] = some []
parse_arguments zero (c ∷ line) = none
parse_arguments (suc room) (c ∷ line) = elim (parse_argument (strip (c ∷ line) none)) [
  | none ↦ none
  | some (arg, rest) ↦ argument arg (parse_arguments room rest)
]

abbrev pub nonempty : Text → Option (List Text)
nonempty [] = none
nonempty (c ∷ line) = parse_arguments 32 (c ∷ line)

-- `argv` up to `argc`; -1 is `none`.
unfoldable pub parse_command : Text → Option (List Text)
unfolding parse_arguments
parse_command line = nonempty (strip line none)

-- A line that is stripped holds no command if it starts with a hash.
unfoldable pub is_comment : Text → Bool
is_comment [] = false
is_comment (c ∷ line) = c == b'#'
