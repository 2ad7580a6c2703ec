-- ===== src/Shell/Line.antt =====
-- The line buffer of src/ml_shell.c. `int` values that are never negative are natural numbers.
use monolinux_c_library.Prelude.{
  ℕ, ◌+◌, ◌-◌, List, [], ◌∷◌, ◌++◌, Bool, true, false, take, drop, set, get_or, ltb, ◌==◌,
  if◌then◌else◌,
}
use monolinux_c_library.Prelude.Int.{ℤ, pos, negsuc}

abbrev pub command_max : ℕ
command_max = 256

-- `struct line_t`.
pub record Line : Type 0 where
  pub buf : List ℕ
  pub length : ℕ
  pub cursor : ℕ

-- memmove() of `n` bytes inside a buffer.
abbrev pub memmove : List ℕ → ℕ → ℕ → ℕ → List ℕ
memmove buf to from n = take to buf ++ (take n (drop from buf) ++ drop (to + n) buf)

unfoldable pub line_init : Line → Line
line_init self = record { buf = set self.buf 0 0; length = 0; cursor = 0 }

unfoldable pub line_insert : Line → ℕ → Line × Bool
line_insert self ch =
    let moved = memmove self.buf (self.cursor + 1) self.cursor (self.length - self.cursor + 1) in
    if self.length == command_max - 1 then (self, false) else (
      record { buf = set moved self.cursor ch; length = self.length + 1; cursor = self.cursor + 1 },
      true,
    )

unfoldable pub line_insert_string : Line → List ℕ → Line
unfolding line_insert
line_insert_string self [] = self
line_insert_string self (ch ∷ str) =
    let (self', inserted) = line_insert self ch in
    let rest = line_insert_string self' str in if inserted then rest else self'

unfoldable pub line_delete : Line → Line
line_delete self = if self.cursor == self.length then self else record self {
  buf = memmove self.buf self.cursor (self.cursor + 1) (self.length - self.cursor);
  length = self.length - 1;
}

unfoldable pub line_peek : Line → ℕ
line_peek self = get_or self.buf self.cursor 0

unfoldable pub line_truncate : Line → Line
line_truncate self = record self { buf = set self.buf self.cursor 0; length = self.cursor }

unfoldable pub line_seek : Line → ℤ → Line × Bool
line_seek self (pos n) =
    if ltb self.length (self.cursor + n)
    then (self, false)
    else (record self { cursor = self.cursor + n }, true)
line_seek self (negsuc n) =
    if ltb self.cursor (n + 1)
    then (self, false)
    else (record self { cursor = self.cursor - (n + 1) }, true)

unfoldable pub line_seek_begin : Line → Line
line_seek_begin self = record self { cursor = 0 }

unfoldable pub line_seek_end : Line → Line
line_seek_end self = record self { cursor = self.length }
