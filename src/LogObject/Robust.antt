-- ===== src/LogObject/Robust.antt =====
-- What a load can change, whatever the file holds and whatever fscanf() makes of it.
use monolinux_c_library.Prelude.{
  ℕ, zero, suc, ◌≡◌, refl, ap, ◌∙◌, List, [], ◌∷◌, Option, none, some, Bool, true, false, All, map,
  arith, if◌then◌else◌, Option-cases, Bool-cases, inl, inr, length, ◌+◌,
}
use monolinux_c_library.Prelude.Int.{ℤ, pos, negsuc}
use monolinux_c_library.Prelude.Text.{Text, codes, same}
use monolinux_c_library.LogObject.Level.{level_from_string, is_known}
use monolinux_c_library.LogObject.Registry.{Object, get_by_name, set_level}
use monolinux_c_library.LogObject.File.{
  Scanner, is_invalid, set_found, scanned, load_line, load_loop, load,
}

-- All levels are among those with a name.
abbrev pub AreKnown : List Object → Type 0
AreKnown = All (λ o. is_known o.level ≡ true)

-- The objects are the same, in the same order, and their levels are still known.
abbrev pub Keeps : List Object → List Object → Type 0
Keeps before after = (map (λ o. o.name) after ≡ map (λ o. o.name) before) × AreKnown after

abbrev IsKnownOrInvalid : ℤ → Type 0
IsKnownOrInvalid v = is_invalid v ≡ false → is_known v ≡ true

choose :
    (b : Bool) (x y : ℤ)
    → IsKnownOrInvalid x
    → IsKnownOrInvalid y
    → IsKnownOrInvalid (if b then x else y)
choose true x y p q = p
choose false x y p q = q

fall_through : IsKnownOrInvalid (negsuc 0)
fall_through e = absurd (ground arith)

valid_known :
    (level : Text)
    → is_invalid (level_from_string level) ≡ false
    → is_known (level_from_string level) ≡ true
unfolding level_from_string
valid_known level =
    choose (same (codes "emergency") level) (pos 0) _ (λ e. refl)
      (choose (same (codes "alert") level) (pos 1) _ (λ e. refl)
        (choose (same (codes "critical") level) (pos 2) _ (λ e. refl)
          (choose (same (codes "error") level) (pos 3) _ (λ e. refl)
            (choose (same (codes "warning") level) (pos 4) _ (λ e. refl)
              (choose (same (codes "notice") level) (pos 5) _ (λ e. refl)
                (choose (same (codes "info") level) (pos 6) _ (λ e. refl)
                  (choose (same (codes "debug") level) (pos 7) _ (λ e. refl) (fall_through))))))))

set_level-Keeps :
    (os : List Object) (i : ℕ) (level : ℤ)
    → AreKnown os
    → is_known level ≡ true
    → Keeps os (set_level os i level)
unfolding set_level
set_level-Keeps [] i level k v = (refl, tt)
set_level-Keeps (o ∷ os) zero level k v = (refl, (v, k.1))
set_level-Keeps (o ∷ os) (suc i) level k v =
    let rest = set_level-Keeps os i level k.1 v in (ap (λ l. o.name ∷ l) rest.0, (k.0, rest.1))

set_found-Keeps :
    (os : List Object) (found : Option ℕ) (level : Text)
    → AreKnown os
    → Keeps os (set_found os found level)
set_found-Keeps os none level k = (refl, k)
set_found-Keeps os (some i) level k = elim (Bool-cases (is_invalid (level_from_string level))) [
  | inl p ↦ rw p (refl, k)
  | inr p ↦ rw p (set_level-Keeps os i (level_from_string level) k (valid_known level p))
]

load_line-Keeps :
    (name level : Text) (os : List Object) → AreKnown os → Keeps os (load_line name level os)
unfolding load_line
load_line-Keeps name level os k = set_found-Keeps os (get_by_name os name) level k

module _ (fscanf : Scanner) where
  load_loop-Keeps :
      (fuel : ℕ) (file : Text) (os : List Object)
      → AreKnown os
      → Keeps os (load_loop fscanf fuel file os)
  unfolding load_loop
  load_loop-Keeps zero file os k = (refl, k)
  load_loop-Keeps (suc fuel) file os k = elim (Option-cases (scanned (fscanf file))) [
    | inl e ↦ rw (e, load_loop) (refl, k)
    | inr ((name, level, rest), e) ↦
        let one = load_line-Keeps name level os k in
        let more = load_loop-Keeps fuel rest (load_line name level os) one.1 in
        rw (e, load_loop) (more.0 ∙ one.0, more.1)
  ]

  -- A load of any file, one with invalid lines or unknown names and one that cannot be opened
  -- included, keeps the objects and their order, and where all levels are among the known ones
  -- before it they are after it.
  pub load-Keeps :
      (file : Option Text) (os : List Object) → AreKnown os → Keeps os (load fscanf file os)
  unfolding load
  load-Keeps none os k = (refl, k)
  load-Keeps (some file) os k = load_loop-Keeps (length file + 1) file os k
