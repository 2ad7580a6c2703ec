-- ===== src/LogObject/RoundTrip.antt =====
-- Levels that were stored are restored by a load.
use monolinux_c_library.Prelude.{
  ℕ, zero, suc, ◌+◌, ◌≡◌, ◌≤◌, ◌<◌, refl, ap, sym, ◌∙◌, List, [], ◌∷◌, ◌++◌, Option, none, some,
  true, false, length, length-append, All, map, arith,
}
use monolinux_c_library.Prelude.Int.{ℤ, pos, negsuc}
use monolinux_c_library.Prelude.Text.{Text, same, same_refl}
use monolinux_c_library.LogObject.Level.{
  level_to_string, is_known, level_from_string-level_to_string,
}
use monolinux_c_library.LogObject.Registry.{Object, bump, get_by_name, set_level}
use monolinux_c_library.LogObject.File.{
  line, store_all, store, IsWord, Scanner, Scans, load_line, load_loop, load, set_found,
}

-- Each object has a name of its own that fits a line, and a known level.
abbrev pub IsStorable : List Object → Type 0
IsStorable [] = Unit {0}
IsStorable (o ∷ os) =
    IsWord 63 o.name
    × (is_known o.level ≡ true)
    × All (λ p. same o.name p.name ≡ false) os
    × IsStorable os

level-IsWord : (level : ℤ) → is_known level ≡ true → IsWord 15 (level_to_string level)
unfolding level_to_string
level-IsWord (negsuc n) k = absurd (ground arith)
level-IsWord (pos zero) k = ground arith
level-IsWord (pos (suc zero)) k = ground arith
level-IsWord (pos (suc (suc zero))) k = ground arith
level-IsWord (pos (suc (suc (suc zero)))) k = ground arith
level-IsWord (pos (suc (suc (suc (suc zero))))) k = ground arith
level-IsWord (pos (suc (suc (suc (suc (suc zero)))))) k = ground arith
level-IsWord (pos (suc (suc (suc (suc (suc (suc zero))))))) k = ground arith
level-IsWord (pos (suc (suc (suc (suc (suc (suc (suc zero)))))))) k = ground arith
level-IsWord (pos (suc (suc (suc (suc (suc (suc (suc (suc n))))))))) k = absurd (ground arith)

set_found-bump :
    (o : Object) (os : List Object) (i : Option ℕ) (level : Text)
    → set_found (o ∷ os) (bump i) level ≡ o ∷ set_found os i level
unfolding set_level
set_found-bump o os none level = refl
set_found-bump o os (some i) level = ground arith

load_line-other :
    (o : Object) (name level : Text) (os : List Object)
    → same o.name name ≡ false
    → load_line name level (o ∷ os) ≡ o ∷ load_line name level os
unfolding load_line get_by_name set_level
load_line-other o name level os d = rw d (set_found-bump o os (get_by_name os name) level)

load_line-same :
    (o : Object) (level : ℤ) (os : List Object)
    → is_known o.level ≡ true
    → load_line o.name (level_to_string o.level) (record o { level = level } ∷ os) ≡ o ∷ os
unfolding load_line get_by_name set_level
load_line-same o level os k =
    rw (same_refl o.name) (rw (level_from_string-level_to_string o.level) (simp k (ground arith)))

same_name :
    (o c : Object) (cs : List Object)
    → c.name ≡ o.name
    → is_known o.level ≡ true
    → load_line o.name (level_to_string o.level) (c ∷ cs) ≡ o ∷ cs
same_name o c cs e k =
    ap (λ n. load_line o.name (level_to_string o.level) (record c { name = n } ∷ cs)) e
    ∙ load_line-same o c.level cs k

length-store_all : (os : List Object) → length os ≤ length (store_all os)
unfolding store_all
length-store_all [] = omega arith
length-store_all (o ∷ os) = omega (
  arith,
  length-store_all os,
  length-append {0} (line o.name (level_to_string o.level)) (store_all os),
  length-append {0} o.name (32 ∷ (level_to_string o.level ++ (10 ∷ []))),
)

module _ (fscanf : Scanner) (scans : Scans fscanf) where
  load_loop-line :
      (fuel : ℕ) (o : Object) (file : Text) (os : List Object)
      → IsWord 63 o.name
      → is_known o.level ≡ true
      → load_loop fscanf (suc fuel) (line o.name (level_to_string o.level) ++ file) os
        ≡ load_loop fscanf fuel file (load_line o.name (level_to_string o.level) os)
  unfolding load_loop
  load_loop-line fuel o file os w k =
      rw (scans.words o.name (level_to_string o.level) file w (level-IsWord o.level k), load_loop)
        refl

  load_loop-end : (fuel : ℕ) (os : List Object) → load_loop fscanf fuel [] os ≡ os
  unfolding load_loop
  load_loop-end zero os = refl
  load_loop-end (suc fuel) os = rw (scans.end_of_file, load_loop) refl

  load_loop-other :
      (fuel : ℕ) (c : Object) (os cs : List Object)
      → IsStorable os
      → All (λ p. same c.name p.name ≡ false) os
      → load_loop fscanf fuel (store_all os) (c ∷ cs) ≡ c ∷ load_loop fscanf fuel (store_all os) cs
  unfolding store_all
  load_loop-other zero c os cs s d = unfold load_loop in refl
  load_loop-other (suc fuel) c [] cs s d =
      load_loop-end (suc fuel) (c ∷ cs) ∙ ap (λ l. c ∷ l) (sym (load_loop-end (suc fuel) cs))
  load_loop-other (suc fuel) c (o ∷ os) cs s d =
      load_loop-line fuel o (store_all os) (c ∷ cs) s.0 s.1
      ∙ ap (load_loop fscanf fuel (store_all os))
          (load_line-other c o.name (level_to_string o.level) cs d.0)
      ∙ load_loop-other fuel c os (load_line o.name (level_to_string o.level) cs) s.3 d.1
      ∙ ap (λ l. c ∷ l) (sym (load_loop-line fuel o (store_all os) cs s.0 s.1))

  load_loop-store :
      (fuel : ℕ) (os cs : List Object)
      → length os < fuel
      → map (λ o. o.name) cs ≡ map (λ o. o.name) os
      → IsStorable os
      → load_loop fscanf fuel (store_all os) cs ≡ os
  unfolding store_all
  load_loop-store zero os cs f n s = elim f [ ]
  load_loop-store (suc fuel) [] [] f n s = load_loop-end (suc fuel) []
  load_loop-store (suc fuel) [] (c ∷ cs) f n s = absurd (ground arith)
  load_loop-store (suc fuel) (o ∷ os) [] f n s = absurd (ground arith)
  load_loop-store (suc fuel) (o ∷ os) (c ∷ cs) f n s =
      load_loop-line fuel o (store_all os) (c ∷ cs) s.0 s.1
      ∙ ap (load_loop fscanf fuel (store_all os)) (same_name o c cs (ground arith) s.1)
      ∙ load_loop-other fuel o os cs s.3 s.2
      ∙ ap (λ l. o ∷ l) (load_loop-store fuel os cs (omega arith) (ground arith) s.3)

  -- Whatever became of the levels since, loading the file that a store wrote gives each object the
  -- level that was stored, if the objects are the same and in the same order, their names are
  -- words of at most 63 characters, no two alike, and the stored levels are the known ones.
  pub load-store :
      (os cs : List Object)
      → map (λ o. o.name) cs ≡ map (λ o. o.name) os
      → IsStorable os
      → load fscanf (store true os) cs ≡ os
  unfolding load store
  load-store os cs n s =
      load_loop-store (length (store_all os) + 1) os cs (omega (arith, length-store_all os)) n s
