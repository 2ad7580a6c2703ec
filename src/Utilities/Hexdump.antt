-- ===== src/Utilities/Hexdump.antt =====
-- ml_hexdump and ml_hexdump_file of src/ml.c. How printf() writes "%08x" and "%02x", and isprint(),
-- are parameters. A file is its bytes from the position on, of which fread() gets as many as asked,
-- or those that are left.
use monolinux_c_library.Prelude.{
  ℕ, zero, suc, ◌+◌, ◌-◌, ◌%◌, [], ◌∷◌, ◌++◌, Bool, true, false, Option, none, some, ltb, ◌==◌,
  take, drop, length, get_or, if◌then◌else◌,
}
use monolinux_c_library.Prelude.Int.{ℤ, pos, negsuc, ◌-ℤ◌}
use monolinux_c_library.Prelude.Text.{Text, codes}
use monolinux_c_library.Prelude.Words.{u32}

-- How bytes are written.
pub record Format : Type 0 where
  pub hex8 : ℕ → Text
  pub hex2 : ℕ → Text
  pub isprint : ℕ → Bool

-- The size of the buffer, or what is left to be read if that is less; a negative size is that of
-- everything.
unfoldable pub chunk_size : ℤ → ℕ
chunk_size (pos n) = if ltb n 256 then n else 256
chunk_size (negsuc n) = 256

module _ (format : Format) where
  abbrev pub spaces : ℕ → Text
  spaces zero = []
  spaces (suc n) = codes "   " ++ spaces n

  abbrev pub printable : Text → ℕ → ℕ → Text
  printable buf i zero = []
  printable buf i (suc n) =
      let b = get_or buf i 0 in (if format.isprint b then b else b'.') ∷ printable buf (suc i) n

  -- print_ascii(), of `size` bytes from `start` on.
  unfoldable pub print_ascii : Text → ℕ → ℕ → Text
  print_ascii buf start size =
      spaces (16 - size) ++ (codes "'" ++ (printable buf start size ++ codes "'"))

  abbrev pub line_start : ℕ → ℕ → Text
  line_start offset p = if p % 16 == 0 then format.hex8 (u32 (offset + p)) ++ codes ": " else []

  unfoldable pub line_end : Text → ℕ → Text
  unfolding print_ascii
  line_end buf p = if p % 16 == 15 then print_ascii buf (p - 15) 16 ++ codes "\n" else []

  unfoldable pub last_line : Text → ℕ → Text
  unfolding print_ascii
  last_line buf p = if p % 16 == 0 then [] else print_ascii buf (p - p % 16) (p % 16) ++ codes "\n"

  -- hexdump(), from the position `p` on.
  unfoldable pub hexdump_from : Text → ℕ → ℕ → ℕ → Text
  unfolding line_end last_line
  hexdump_from buf offset zero p = last_line buf p
  hexdump_from buf offset (suc size) p =
      let rest = hexdump_from buf offset size (suc p) in
      line_start offset p
      ++ (format.hex2 (get_or buf p 0) ++ (codes " " ++ (line_end buf p ++ rest)))

  unfoldable pub hexdump : Text → ℕ → ℕ → Text
  unfolding hexdump_from
  hexdump buf size offset = hexdump_from buf offset size 0

  -- ml_hexdump().
  unfoldable pub ml_hexdump : Text → ℕ → Text
  unfolding hexdump
  ml_hexdump buf size = hexdump buf size 0

  abbrev pub prepend : Text → Option Text → Option Text
  prepend out none = none
  prepend out (some rest) = some (out ++ rest)

  -- The loop of ml_hexdump_file() on fuel, with the bytes of the file that are left.
  unfoldable pub file_loop : ℕ → Text → ℕ → ℤ → Option Text
  unfolding chunk_size hexdump
  file_loop zero file offset size = none
  file_loop (suc fuel) file offset size =
      let chunk = take (chunk_size size) file in
      let out = hexdump chunk (length chunk) (u32 offset) in
      let rest =
        file_loop fuel (drop 256 file) (offset + length chunk) (size -ℤ pos (length chunk)) in
      if ltb (length chunk) 256 then some out else prepend out rest

  abbrev pub with_result : Option Text → Option (Text × ℤ)
  with_result none = none
  with_result (some out) = some (out, pos 0)

  -- ml_hexdump_file(): the flag is whether fseek() gets to the offset, and else the result is
  -- -EGENERAL.
  unfoldable pub hexdump_file : ℕ → Bool → Text → ℕ → ℤ → Option (Text × ℤ)
  unfolding file_loop
  hexdump_file fuel false file offset size = some ([], negsuc 999)
  hexdump_file fuel true file offset size =
      with_result (file_loop fuel (drop offset file) offset size)
