-- ===== src/Utilities/Strip.antt =====
-- ml_strip, ml_lstrip and ml_rstrip of src/ml.c, on the contents of a C string.
use monolinux_c_library.Prelude.{
  ℕ, zero, suc, [], ◌∷◌, Option, none, some, Bool, false, ◌||◌, length, take, get_or, ◌==◌,
  if◌then◌else◌,
}
use monolinux_c_library.Prelude.Text.{Text}

unfoldable pub char_in_string : ℕ → Text → Bool
char_in_string c [] = false
char_in_string c (x ∷ str) = c == x || char_in_string c str

-- "\t\n\x0b\x0c\r " stands for a null pointer.
abbrev pub strip_set : Option Text → Text
strip_set none = 9 ∷ 10 ∷ 11 ∷ 12 ∷ 13 ∷ 32 ∷ []
strip_set (some strip) = strip

-- The loop of ml_lstrip.
unfoldable pub skip : Text → Text → Text
unfolding char_in_string
skip strip [] = []
skip strip (c ∷ str) = if char_in_string c strip then skip strip str else c ∷ str

unfoldable pub lstrip : Text → Option Text → Text
unfolding skip
lstrip str strip = skip (strip_set strip) str

-- The loop of ml_rstrip, with `str_p` behind `n` characters: a NUL written there cuts the string.
unfoldable pub cut : Text → ℕ → Text → Text
unfolding char_in_string
cut strip zero str = str
cut strip (suc n) str =
    if char_in_string (get_or str n 0) strip then cut strip n (take n str) else str

unfoldable pub rstrip : Text → Option Text → Text
unfolding cut
rstrip str strip = cut (strip_set strip) (length str) str

unfoldable pub strip : Text → Option Text → Text
unfolding lstrip rstrip
strip str set = lstrip (rstrip str set) set
