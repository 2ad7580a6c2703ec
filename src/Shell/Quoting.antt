-- ===== src/Shell/Quoting.antt =====
-- The command parser against a way to write any arguments as a line: each one in quotes, with a
-- backslash in front of each quote in it.
use monolinux_c_library.Prelude.{
  ℕ, zero, suc, ◌≡◌, ◌≢◌, ◌⊎◌, ◌≤◌, ◌<◌, refl, sym, ap, ◌∙◌, List, [], ◌∷◌, ◌++◌, Option, none,
  some, Bool, true, false, length, All, append_assoc, append-nil, arith, Bool-cases, Option-cases,
  inl, inr, ◌==◌, if◌then◌else◌,
}
use monolinux_c_library.Prelude.Text.{Text}
use monolinux_c_library.Utilities.Strip.{char_in_string, strip_set, strip}
use monolinux_c_library.Utilities.Stripped.{IsKept, Starts, Ends, strip-kept}
use monolinux_c_library.Shell.Parse.{
  quote, backslash, space, parse_loop, parse_argument, argument, nonempty, parse_arguments,
  parse_command,
}

abbrev pub escape : Text → Text
escape [] = []
escape (c ∷ arg) = if c == quote then backslash ∷ quote ∷ escape arg else c ∷ escape arg

abbrev pub quoted : Text → Text
quoted arg = quote ∷ (escape arg ++ (quote ∷ []))

abbrev pub command : List Text → Text
command [] = []
command (arg ∷ []) = quoted arg
command (arg ∷ next ∷ args) = quoted arg ++ (space ∷ command (next ∷ args))

-- A backslash at the end would take the closing quote for its own.
abbrev pub IsQuotable : Text → Type 0
IsQuotable arg = Ends (λ c. c ≢ backslash) arg

toggle :
    (q : Bool) (done line : Text)
    → parse_loop q done (quote ∷ line) ≡ parse_loop (if q then false else true) done line
unfolding parse_loop
toggle q done [] = refl
toggle q done (c ∷ line) = refl

keep :
    (done line : Text) (c : ℕ)
    → c ≢ backslash
    → c ≢ quote
    → parse_loop true done (c ∷ line) ≡ parse_loop true (done ++ (c ∷ [])) line
unfolding parse_loop
keep done [] c b q = ground arith
keep done (d ∷ line) c b q = ground arith

keep_backslash :
    (done line : Text)
    → Starts (λ c. c ≢ quote) line
    → parse_loop true done (backslash ∷ line) ≡ parse_loop true (done ++ (backslash ∷ [])) line
unfolding parse_loop
keep_backslash done [] s = refl
keep_backslash done (d ∷ line) s = ground arith

keep_quote :
    (done line : Text)
    → parse_loop true done (backslash ∷ quote ∷ line) ≡ parse_loop true (done ++ (quote ∷ [])) line
unfolding parse_loop
keep_quote done line = refl

-- The text behind a backslash that is not the last character of an argument.
escape-Starts : (arg rest : Text) (c : ℕ) → Starts (λ d. d ≢ quote) (escape (c ∷ arg) ++ rest)
escape-Starts arg rest c = elim (Bool-cases (c == quote)) [
  | inl p ↦ rw p (ground arith)
  | inr p ↦ rw p (ground arith)
]

parse_one :
    (arg done rest : Text) (c : ℕ)
    → (Starts (λ d. d ≢ quote) (escape arg ++ rest)) ⊎ (c ≢ backslash)
    → parse_loop true done (escape (c ∷ arg) ++ rest)
      ≡ parse_loop true (done ++ (c ∷ [])) (escape arg ++ rest)
parse_one arg done rest c h = elim (Bool-cases (c == quote)) [
  | inl q ↦ let e : c ≡ quote = ground arith in rw e (keep_quote done (escape arg ++ rest))
  | inr q ↦ elim (Bool-cases (c == backslash)) [
    | inr b ↦ rw q (keep done (escape arg ++ rest) c (ground arith) (ground arith))
    | inl b ↦
        let e : c ≡ backslash = ground arith in
        elim h [ inl s ↦ rw e (keep_backslash done (escape arg ++ rest) s) | inr n ↦ absurd (n e) ]
  ]
]

parse_escaped :
    (arg done rest : Text)
    → IsQuotable arg
    → parse_loop true done (escape arg ++ (quote ∷ rest)) ≡ parse_loop false (done ++ arg) rest
parse_escaped [] done rest h =
    toggle true done rest ∙ ap (λ d. parse_loop false d rest) (sym (append-nil done))
parse_escaped (c ∷ []) done rest h =
    parse_one [] done (quote ∷ rest) c (inr h) ∙ toggle true (done ++ (c ∷ [])) rest
parse_escaped (c ∷ d ∷ arg) done rest h =
    parse_one (d ∷ arg) done (quote ∷ rest) c (inl (escape-Starts arg (quote ∷ rest) d))
    ∙ parse_escaped (d ∷ arg) (done ++ (c ∷ [])) rest h
    ∙ ap (λ t. parse_loop false t rest) (append_assoc done (c ∷ []) (d ∷ arg))

parse_argument-quoted :
    (arg rest : Text)
    → IsQuotable arg
    → parse_argument (quoted arg ++ rest) ≡ parse_loop false arg rest
unfolding parse_argument
parse_argument-quoted arg rest h =
    ap (λ t. parse_loop false [] (quote ∷ t)) (append_assoc (escape arg) (quote ∷ []) rest)
    ∙ toggle false [] (escape arg ++ (quote ∷ rest))
    ∙ parse_escaped arg [] rest h

-- An argument ends at the end of the line, and at a space in front of another one.
parse_last : (arg : Text) → parse_loop false arg [] ≡ some (arg, [])
unfolding parse_loop
parse_last arg = refl

parse_space :
    (arg line : Text) (c : ℕ) → parse_loop false arg (space ∷ c ∷ line) ≡ some (arg, c ∷ line)
unfolding parse_loop
parse_space arg line c = refl

Ends-append : (P : ℕ → Type 0) (xs ys : Text) (y : ℕ) → Ends P (y ∷ ys) → Ends P (xs ++ (y ∷ ys))
Ends-append P [] ys y h = h
Ends-append P (x ∷ []) ys y h = h
Ends-append P (x ∷ z ∷ xs) ys y h = Ends-append P (z ∷ xs) ys y h

quote-IsKept : IsKept (strip_set none) quote
unfolding char_in_string
quote-IsKept = refl

command-Ends :
    (arg : Text) (args : List Text) → Ends (IsKept (strip_set none)) (command (arg ∷ args))
command-Ends arg [] =
    Ends-append (IsKept (strip_set none)) (quote ∷ escape arg) [] quote quote-IsKept
command-Ends arg (next ∷ []) =
    Ends-append (IsKept (strip_set none)) (quoted arg) (command (next ∷ [])) space
      (command-Ends next [])
command-Ends arg (next ∷ more ∷ args) =
    Ends-append (IsKept (strip_set none)) (quoted arg) (command (next ∷ more ∷ args)) space
      (command-Ends next (more ∷ args))

command-Starts :
    (arg : Text) (args : List Text) → Starts (IsKept (strip_set none)) (command (arg ∷ args))
command-Starts arg [] = quote-IsKept
command-Starts arg (next ∷ args) = quote-IsKept

pub strip-command :
    (arg : Text) (args : List Text) → strip (command (arg ∷ args)) none ≡ command (arg ∷ args)
strip-command arg args =
    strip-kept (command (arg ∷ args)) none (command-Starts arg args) (command-Ends arg args)

parse_argument-command :
    (arg : Text) (args : List Text)
    → IsQuotable arg
    → parse_argument (command (arg ∷ args)) ≡ some (arg, command args)
parse_argument-command arg [] h =
    ap parse_argument (sym (append-nil (quoted arg)))
    ∙ parse_argument-quoted arg [] h
    ∙ parse_last arg
parse_argument-command arg (next ∷ []) h =
    parse_argument-quoted arg (space ∷ command (next ∷ [])) h ∙ parse_space arg _ quote
parse_argument-command arg (next ∷ more ∷ args) h =
    parse_argument-quoted arg (space ∷ command (next ∷ more ∷ args)) h ∙ parse_space arg _ quote

parse_arguments-nonempty :
    (room : ℕ) (line arg rest : Text)
    → parse_argument (strip (quote ∷ line) none) ≡ some (arg, rest)
    → parse_arguments (suc room) (quote ∷ line) ≡ argument arg (parse_arguments room rest)
unfolding parse_arguments
parse_arguments-nonempty room line arg rest e = rw (e, parse_arguments)

parse_arguments-command :
    (room : ℕ) (args : List Text)
    → length args ≤ room
    → All IsQuotable args
    → parse_arguments room (command args) ≡ some args
parse_arguments-command room [] h q = unfold parse_arguments in refl
parse_arguments-command zero (arg ∷ args) h q = absurd (omega arith)
parse_arguments-command (suc room) (arg ∷ args) h q =
    step args ∙ ap (argument arg) (parse_arguments-command room args (omega arith) q.1)
  where
    step :
        (args : List Text)
        → parse_arguments (suc room) (command (arg ∷ args))
          ≡ argument arg (parse_arguments room (command args))
    step [] =
        parse_arguments-nonempty room _ arg []
          (ap parse_argument (strip-command arg []) ∙ parse_argument-command arg [] q.0)
    step (next ∷ args) = parse_arguments-nonempty room _ arg (command (next ∷ args)) (
        ap parse_argument (strip-command arg (next ∷ args))
        ∙ parse_argument-command arg (next ∷ args) q.0)

nonempty-command :
    (arg : Text) (args : List Text)
    → parse_command (command (arg ∷ args)) ≡ parse_arguments 32 (command (arg ∷ args))
unfolding parse_command
nonempty-command arg [] = ap nonempty (strip-command arg [])
nonempty-command arg (next ∷ args) = ap nonempty (strip-command arg (next ∷ args))

-- Between 1 and 32 arguments, each in quotes and with its own quotes escaped, parse back to just
-- these arguments, whatever characters they hold, unless one ends with a backslash.
pub parse_command-command :
    (arg : Text) (args : List Text)
    → length args < 32
    → All IsQuotable (arg ∷ args)
    → parse_command (command (arg ∷ args)) ≡ some (arg ∷ args)
parse_command-command arg args h q =
    nonempty-command arg args ∙ parse_arguments-command 32 (arg ∷ args) (omega arith) q

argument-length :
    (arg : Text) (parsed : Option (List Text)) {args : List Text}
    → argument arg parsed ≡ some args
    → (rest : List Text) × (parsed ≡ some rest) × (args ≡ arg ∷ rest)
argument-length arg none e = absurd (ground arith)
argument-length arg (some rest) e = (rest, refl, ground arith)

-- What a line parsed to, taken apart.
parse_arguments-cons :
    (room : ℕ) (c : ℕ) (line : Text) {args : List Text}
    → parse_arguments (suc room) (c ∷ line) ≡ some args
    → (arg rest : Text) × (more : List Text) × (parse_arguments room rest ≡ some more)
      × (args ≡ arg ∷ more)
unfolding parse_arguments
parse_arguments-cons room c line {args} e =
    elim (Option-cases (parse_argument (strip (c ∷ line) none))) [
      | inl f ↦ absurd (ground arith)
      | inr ((arg, rest), f) ↦
          let g : argument arg (parse_arguments room rest) ≡ some args =
            rw (f, parse_arguments) at e in
          let (more, m, a) = argument-length arg (parse_arguments room rest) g in
          (arg, rest, more, m, a)
    ]

parse_arguments-length :
    (room : ℕ) (line : Text) {args : List Text}
    → parse_arguments room line ≡ some args
    → length args ≤ room
parse_arguments-length room [] e = unfold parse_arguments in ground arith
parse_arguments-length zero (c ∷ line) e = absurd (unfold parse_arguments in ground arith)
parse_arguments-length (suc room) (c ∷ line) e =
    let (arg, rest, more, m, a) = parse_arguments-cons room c line e in
    omega (arith, ap length a, parse_arguments-length room rest m)

nonempty_pos :
    (line : Text) {args : List Text}
    → nonempty line ≡ some args
    → (0 < length args) × (length args ≤ 32)
nonempty_pos [] e = absurd (ground arith)
nonempty_pos (c ∷ line) e =
    let (arg, rest, more, m, a) = parse_arguments-cons 31 c line e in
    (omega (arith, ap length a), parse_arguments-length 32 (c ∷ line) e)

-- A parsed command has between 1 and 32 arguments, which fit the array `argv`.
pub parse_command-length :
    (line : Text) {args : List Text}
    → parse_command line ≡ some args
    → (0 < length args) × (length args ≤ 32)
unfolding parse_command
parse_command-length line e = nonempty_pos (strip line none) e
