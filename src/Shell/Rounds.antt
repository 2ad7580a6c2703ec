-- ===== src/Shell/Rounds.antt =====
-- The rounds of read_command of src/ml_shell.c: every key takes its bytes from the input.
use monolinux_c_library.Prelude.{
  ℕ, zero, suc, ◌≡◌, ◌≤◌, refl, ap, List, [], ◌∷◌, Bool, true, false, inl, inr, Option-cases,
  Option, none, some, length, arith, ◌==◌, if◌then◌else◌,
}
use monolinux_c_library.Prelude.Text.{Text}
use monolinux_c_library.Shell.Line.{line_insert}
use monolinux_c_library.Shell.Keys.{Shell, with_line, handle_alt}
use monolinux_c_library.Shell.Search.{
  search_step, after_escape, accept, ctrl_r_loop, handle_ctrl_r, is_erase,
}
use monolinux_c_library.Shell.Reader.{handle, save_line, or_execute, read_loop}

-- At most so many bytes are left.
abbrev Left : ℕ → Option (Shell × Text) → Type 0
Left n none = zero ≤ n
Left n (some (self, input)) = length input ≤ n

if-Left :
    (b : Bool) (n : ℕ) (x y : Option (Shell × Text))
    → Left n x
    → Left n y
    → Left n (if b then x else y)
if-Left true n x y l r = l
if-Left false n x y l r = r

some-Left :
    (b : Bool) (n : ℕ) (self : Shell) (input : Text) (y : Option (Shell × Text))
    → length input ≤ n
    → Left n y
    → Left n (if b then some (self, input) else y)
some-Left b n self input y l r = if-Left b n (some (self, input)) y l r

handle_alt-Left : (input : Text) (self : Shell) → Left (length input) (handle_alt input self)
unfolding handle_alt
handle_alt-Left [] self = omega arith
handle_alt-Left (ch ∷ []) self = if-Left (ch == b'd') 1 _ _ (omega arith) (
    if-Left (ch == b'O') 1 _ _ (omega arith)
      (if-Left (ch == b'[') 1 _ _ (omega arith) (omega arith)))
handle_alt-Left (ch ∷ next ∷ input) self =
    let n = suc (suc (length input)) in
    if-Left (ch == b'd') n _ _ (omega arith) (
      if-Left (ch == b'O') n _ _ (omega arith)
        (if-Left (ch == b'[') n _ _ (omega arith) (omega arith)))

after_escape-Left : (input : Text) (self : Shell) → Left (length input) (after_escape self input)
after_escape-Left [] self = omega arith
after_escape-Left (ch ∷ []) self = if-Left (ch == b'd') 1 _ _ (omega arith) (omega arith)
after_escape-Left (ch ∷ next ∷ input) self =
    if-Left (ch == b'd') (suc (suc (length input))) _ _ (omega arith) (omega arith)

accept-Left : (ch : ℕ) (self : Shell) (input : Text) → Left (length input) (accept ch self input)
unfolding accept
accept-Left ch self input = if-Left (ch == 10) (length input) _ _ (omega arith) (
    if-Left (ch == 27) (length input) _ _ (after_escape-Left input (with_line self self.found))
      (omega arith))

more-Left : (n : ℕ) (x : Option (Shell × Text)) → Left n x → Left (suc n) x
more-Left n none l = omega arith
more-Left n (some (self, input)) l = omega arith

ctrl_r_loop-Left : (input : Text) (self : Shell) → Left (length input) (ctrl_r_loop input self)
unfolding ctrl_r_loop
ctrl_r_loop-Left [] self = omega arith
ctrl_r_loop-Left (ch ∷ input) self =
    let n = suc (length input) in
    let more =
      more-Left (length input) (ctrl_r_loop input (search_step ch self))
        (ctrl_r_loop-Left input (search_step ch self)) in
    if-Left _ n _ _ more (
      if-Left (ch == 13) n _ _ more (
        if-Left (ch == 7) n _ _ (omega arith)
          (if-Left _ n _ _ more (more-Left (length input) _ (accept-Left ch self input)))))

handle-Left :
    (names : List Text) (ch : ℕ) (input : Text) (self : Shell)
    → Left (length input) (handle names ch input self)
unfolding handle handle_ctrl_r
handle-Left names ch input self =
    let n = length input in
    let same : n ≤ n = omega arith in
    let rest = if-Left (ch == 18) n _ _ (ctrl_r_loop-Left input _) (
      if-Left (ch == 27) n _ (some (with_line self (line_insert self.line ch).0, input))
        (handle_alt-Left input self) same) in
    some-Left (ch == 9) n _ input _ same (
      some-Left (ch == 13) n _ input _ same (
        some-Left (ch == 10) n _ input _ same (
          some-Left (is_erase ch) n _ input _ same (
            some-Left (ch == 1) n _ input _ same (
              some-Left (ch == 5) n _ input _ same (
                some-Left (ch == 4) n _ input _ same (
                  some-Left (ch == 11) n _ input _ same
                    (some-Left (ch == 20) n _ input _ same rest))))))))

-- The length of the input is rounds enough: with any number of rounds that is no smaller,
-- read_command's loop comes to the same result, on every input and every state of the shell.
pub read_loop-rounds :
    (names : List Text) (allocated : Bool) (m n : ℕ) (input : Text) (self : Shell)
    → length input ≤ m
    → length input ≤ n
    → read_loop names allocated m input self ≡ read_loop names allocated n input self
unfolding read_loop
read_loop-rounds names allocated m n [] self h k = refl
read_loop-rounds names allocated zero n (ch ∷ input) self h k = absurd (omega arith)
read_loop-rounds names allocated (suc m) zero (ch ∷ input) self h k = absurd (omega arith)
read_loop-rounds names allocated (suc m) (suc n) (ch ∷ input) self h k =
    elim (Option-cases (handle names ch input (save_line self))) [
      | inl p ↦ rw (read_loop, p) refl
      | inr ((self', input'), p) ↦
          let fewer : length input' ≤ length input =
            rw p at (handle-Left names ch input (save_line self)) in
          rw (read_loop, p)
            (ap (or_execute allocated self' input')
              (read_loop-rounds names allocated m n input' self' (omega arith) (omega arith)))
    ]
