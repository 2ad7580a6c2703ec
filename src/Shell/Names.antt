-- ===== src/Shell/Names.antt =====
-- The order of command names that src/ml_shell.c sorts and searches by.
use mathlib.Core.List.{Permᴰ}
use monolinux_c_library.Libc.{Falls, Ascends, IsOrder}
use monolinux_c_library.Prelude.{
  ℕ, ◌+◌, ◌≡◌, ◌≤◌, ◌⊎◌, refl, ◌∙◌, List, [], ◌∷◌, Option, none, some, true, arith, if◌then◌else◌,
}
use monolinux_c_library.Prelude.Int.{pos, negsuc, ◌≤ℤ◌}
use monolinux_c_library.Prelude.Text.{Text, same}
use monolinux_c_library.Shell.Registry.{Command, strcmp, compare_bsearch, compare_qsort}

strcmp-total : (s t : Text) → (strcmp s t ≤ℤ pos 0) ⊎ (strcmp t s ≤ℤ pos 0)
unfolding strcmp
strcmp-total [] [] = ground arith
strcmp-total [] (b ∷ t) = ground arith
strcmp-total (a ∷ s) [] = ground arith
strcmp-total (a ∷ s) (b ∷ t) = ground (arith, strcmp-total s t)

strcmp-trans : (s t u : Text) → strcmp s t ≤ℤ pos 0 → strcmp t u ≤ℤ pos 0 → strcmp s u ≤ℤ pos 0
unfolding strcmp
strcmp-trans [] [] u h k = k
strcmp-trans [] (b ∷ t) [] h k = ground arith
strcmp-trans [] (b ∷ t) (c ∷ u) h k = ground arith
strcmp-trans (a ∷ s) [] u h k = absurd (ground arith)
strcmp-trans (a ∷ s) (b ∷ t) [] h k = absurd (ground arith)
strcmp-trans (a ∷ s) (b ∷ t) (c ∷ u) h k = ground (arith, strcmp-trans s t u)

strcmp-bounds : (s t : Text) → (negsuc 0 ≤ℤ strcmp s t) × (strcmp s t ≤ℤ pos 1)
unfolding strcmp
strcmp-bounds [] [] = ground arith
strcmp-bounds [] (b ∷ t) = ground arith
strcmp-bounds (a ∷ s) [] = ground arith
strcmp-bounds (a ∷ s) (b ∷ t) = ground (arith, strcmp-bounds s t)

-- A key compares lower with a later name.
strcmp-falls : (key s t : Text) → strcmp s t ≤ℤ pos 0 → strcmp key t ≤ℤ strcmp key s
unfolding strcmp
strcmp-falls [] [] [] h = ground arith
strcmp-falls [] [] (c ∷ t) h = ground arith
strcmp-falls [] (b ∷ s) [] h = absurd (ground arith)
strcmp-falls [] (b ∷ s) (c ∷ t) h = ground arith
strcmp-falls (a ∷ key) [] [] h = ground arith
strcmp-falls (a ∷ key) [] (c ∷ t) h = ground (arith, strcmp-bounds key t)
strcmp-falls (a ∷ key) (b ∷ s) [] h = absurd (ground arith)
strcmp-falls (a ∷ key) (b ∷ s) (c ∷ t) h =
    ground (arith, strcmp-bounds key s, strcmp-bounds key t, strcmp-falls key s t)

pub strcmp_refl : (s : Text) → strcmp s s ≡ pos 0
unfolding strcmp
strcmp_refl [] = refl
strcmp_refl (a ∷ s) = ground (arith, strcmp_refl s)

pub strcmp-same : (s t : Text) → strcmp s t ≡ pos 0 → same s t ≡ true
unfolding strcmp same
strcmp-same [] [] h = refl
strcmp-same [] (b ∷ t) h = absurd (ground arith)
strcmp-same (a ∷ s) [] h = absurd (ground arith)
strcmp-same (a ∷ s) (b ∷ t) h = ground (arith, strcmp-same s t)

pub compare_qsort-IsOrder : IsOrder compare_qsort
unfolding compare_qsort
compare_qsort-IsOrder = record {
  total = λ a b. strcmp-total a.name b.name;
  trans = λ a b c. strcmp-trans a.name b.name c.name;
}

pub Ascends-Falls :
    (name : Text) (commands : List Command)
    → Ascends compare_qsort commands
    → Falls (compare_bsearch name) commands
unfolding compare_qsort compare_bsearch
Ascends-Falls name [] h = tt
Ascends-Falls name (a ∷ []) h = tt
Ascends-Falls name (a ∷ b ∷ l) h =
    (strcmp-falls name a.name b.name h.0, Ascends-Falls name (b ∷ l) h.1)

-- How many commands have the name.
abbrev pub occurrences : Text → List Command → ℕ
occurrences name [] = 0
occurrences name (a ∷ l) = (if same a.name name then 1 else 0) + occurrences name l

-- The command of a name, by a plain scan of the table.
unfoldable pub lookup : Text → List Command → Option Command
lookup name [] = none
lookup name (a ∷ l) = if same a.name name then some a else lookup name l

pub occurrences-perm :
    {l m : List Command} (name : Text) → Permᴰ l m → occurrences name l ≡ occurrences name m
occurrences-perm name Permᴰ.nil = refl
occurrences-perm name (Permᴰ.cons e p) = ground (arith, occurrences-perm name p)
occurrences-perm name (Permᴰ.swap e f) = ground arith
occurrences-perm name (Permᴰ.trans p q) = occurrences-perm name p ∙ occurrences-perm name q

pub lookup-perm :
    {l m : List Command} (name : Text)
    → Permᴰ l m
    → occurrences name m ≤ 1
    → lookup name l ≡ lookup name m
unfolding lookup
lookup-perm name Permᴰ.nil u = refl
lookup-perm name (Permᴰ.cons e p) u = ground (arith, lookup-perm name p)
lookup-perm name (Permᴰ.swap e f) u = ground arith
lookup-perm name (Permᴰ.trans p q) u =
    lookup-perm name p (omega (arith, occurrences-perm name q)) ∙ lookup-perm name q u
