-- ===== src/Prelude/Calls.antt =====
-- Calls of a kernel that answers each from the calls made so far.
use monolinux_c_library.Prelude.{List, [], ◌∷◌, true, if◌then◌else◌, ◌≡◌, arith}
use monolinux_c_library.Prelude.Int.{ℤ, pos, negsuc, is_zero}

module _ {C A : Type 0} (answer : List (C × A) → C → A) (res : A → ℤ) where
  -- Calls one after the other, up to the first whose result is not 0.
  unfoldable pub until_failure : List C → List (C × A) → List (C × A) × ℤ
  until_failure [] tr = (tr, pos 0)
  until_failure (c ∷ cs) tr =
      let a = answer tr c in
      let rest = until_failure cs ((c, a) ∷ tr) in
      if is_zero (res a) then rest else ((c, a) ∷ tr, res a)

pub eq_of_is_zero : (a : ℤ) → is_zero a ≡ true → pos 0 ≡ a
eq_of_is_zero (pos n) h = ground arith
eq_of_is_zero (negsuc n) h = absurd (ground arith)
