-- ===== src/Prelude/Text.antt =====
-- C strings: a string is the list of its bytes, without the terminating NUL.
use Prim.Native.Char.{code}
use Prim.Native.String.{String}
use mathlib.Core.Bool.{Bool, true, false, ◌&&◌}
use mathlib.Core.List.{List, [], ◌∷◌}
use mathlib.Core.Path.{◌≡◌, refl}
use native.Mathlib.Omega.{arith}
use Prim.Native.Nat.{ℕ}
use monolinux_c_library.Prelude.Tests.{◌==◌}

abbrev pub Text : Type 0
Text = List ℕ

-- The bytes of a string literal.
abbrev pub codes : String → Text
codes String.[] = []
codes (String.◌∷◌ c s) = code c ∷ codes s

-- strcmp() comes to 0.
unfoldable pub same : Text → Text → Bool
same [] [] = true
same (a ∷ as') (b ∷ bs) = a == b && same as' bs
same _ _ = false

pub same_refl : (t : Text) → same t t ≡ true
unfolding same
same_refl [] = refl
same_refl (x ∷ t) = ground (arith, same_refl t)

pub eq_of_same : (s t : Text) → same s t ≡ true → s ≡ t
unfolding same
eq_of_same [] [] h = refl
eq_of_same (a ∷ s) (b ∷ t) h = ground (arith, eq_of_same s t)
eq_of_same [] (b ∷ t) h = absurd (ground arith)
eq_of_same (a ∷ s) [] h = absurd (ground arith)
