-- ===== src/LogObject/Fuel.antt =====
-- The loop of a load ends: one round more than bytes is enough.
use monolinux_c_library.Prelude.{
  ℕ, zero, suc, ◌+◌, ◌≡◌, ◌≤◌, ◌<◌, refl, ap, List, [], ◌∷◌, some, length, arith, Option-cases, inl,
  inr, sym, ◌∙◌,
}
use monolinux_c_library.Prelude.Text.{Text}
use monolinux_c_library.LogObject.Registry.{Object}
use monolinux_c_library.LogObject.File.{Scanner, at_newline, scanned, load_line, load_loop, load}

-- Documented behaviour of fscanf(): what is left to read does not grow.
abbrev pub Reads : Scanner → Type 0
Reads fscanf =
    (file name level rest : Text)
    → fscanf file ≡ some (name, level, rest)
    → length rest ≤ length file

at_newline-lt :
    (n l file : Text) {name level rest : Text}
    → at_newline n l file ≡ some (name, level, rest)
    → length rest < length file
at_newline-lt n l [] e = absurd (ground arith)
at_newline-lt n l (c ∷ file) e = ground arith

module _ (fscanf : Scanner) (reads : Reads fscanf) where
  scanned-lt :
      (file : Text) {name level rest : Text}
      → scanned (fscanf file) ≡ some (name, level, rest)
      → length rest < length file
  scanned-lt file e = elim (Option-cases (fscanf file)) [
    | inl f ↦ absurd (ground arith)
    | inr ((n, l, r), f) ↦
        omega (arith, reads file n l r f, at_newline-lt n l r (sym (ap scanned f) ∙ e))
  ]

  load_loop-fuel :
      (fuel more : ℕ) (file : Text) (os : List Object)
      → length file < fuel
      → fuel ≤ more
      → load_loop fscanf more file os ≡ load_loop fscanf fuel file os
  unfolding load_loop
  load_loop-fuel zero more file os f m = elim f [ ]
  load_loop-fuel (suc fuel) zero file os f m = elim m [ ]
  load_loop-fuel (suc fuel) (suc more) file os f m = elim (Option-cases (scanned (fscanf file))) [
    | inl e ↦ rw (e, load_loop) refl
    | inr ((name, level, rest), e) ↦
        rw (e, load_loop)
          (load_loop-fuel fuel more rest (load_line name level os)
            (omega (arith, scanned-lt file e)) (omega arith))
  ]

  -- The loop of a load ends on every file, if fscanf() does not add to it: any greater bound on the
  -- rounds gives the same result.
  pub load-fuel :
      (more : ℕ) (file : Text) (os : List Object)
      → length file < more
      → load_loop fscanf more file os ≡ load fscanf (some file) os
  unfolding load
  load-fuel more file os h =
      load_loop-fuel (length file + 1) more file os (omega arith) (omega arith)
