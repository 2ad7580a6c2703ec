-- ===== src/Bus/Table.antt =====
-- The table stays sorted by identifier, with one element for each.
use mathlib.Core.List.{Permᴰ}
use monolinux_c_library.Libc.{Falls, Ascends, IsOrder}
use monolinux_c_library.Prelude.{
  ℕ, ◌+◌, ◌≡◌, ◌≤◌, refl, ◌∙◌, List, [], ◌∷◌, arith, ◌==◌, if◌then◌else◌,
}
use monolinux_c_library.Bus.Registry.{Bus, compare_bsearch, compare_qsort}

abbrev pub IsSorted : Bus → Type 0
IsSorted [] = Unit {0}
IsSorted (a ∷ []) = Unit {0}
IsSorted (a ∷ b ∷ l) = (a.uid ≤ b.uid) × IsSorted (b ∷ l)

-- How many elements have the identifier.
abbrev pub occurrences : ℕ → Bus → ℕ
occurrences uid [] = 0
occurrences uid (a ∷ l) = (if a.uid == uid then 1 else 0) + occurrences uid l

-- The queues that subscribe to an identifier, by a plain scan of the table.
unfoldable pub subscribers : ℕ → Bus → List ℕ
subscribers uid [] = []
subscribers uid (a ∷ l) = if a.uid == uid then a.queues else subscribers uid l

pub record IsValid (bus : Bus) : Type 0 where
  pub sorted : IsSorted bus
  pub unique : (uid : ℕ) → occurrences uid bus ≤ 1

pub compare_qsort-IsOrder : IsOrder compare_qsort
unfolding compare_qsort
compare_qsort-IsOrder = record { total = λ a b. ground arith; trans = λ a b c h k. ground arith }

pub IsSorted-Falls : (uid : ℕ) (bus : Bus) → IsSorted bus → Falls (compare_bsearch uid) bus
unfolding compare_bsearch
IsSorted-Falls uid [] h = tt
IsSorted-Falls uid (a ∷ []) h = tt
IsSorted-Falls uid (a ∷ b ∷ l) h = (ground arith, IsSorted-Falls uid (b ∷ l) h.1)

pub Ascends-IsSorted : (bus : Bus) → Ascends compare_qsort bus → IsSorted bus
unfolding compare_qsort
Ascends-IsSorted [] h = tt
Ascends-IsSorted (a ∷ []) h = tt
Ascends-IsSorted (a ∷ b ∷ l) h = (ground arith, Ascends-IsSorted (b ∷ l) h.1)

pub occurrences-perm : {l m : Bus} (uid : ℕ) → Permᴰ l m → occurrences uid l ≡ occurrences uid m
occurrences-perm uid Permᴰ.nil = refl
occurrences-perm uid (Permᴰ.cons e p) = ground (arith, occurrences-perm uid p)
occurrences-perm uid (Permᴰ.swap e f) = ground arith
occurrences-perm uid (Permᴰ.trans p q) = occurrences-perm uid p ∙ occurrences-perm uid q

-- Where each identifier has one element, the order of the elements does not matter to a scan.
pub subscribers-perm :
    {l m : Bus} (uid : ℕ)
    → Permᴰ l m
    → occurrences uid m ≤ 1
    → subscribers uid l ≡ subscribers uid m
unfolding subscribers
subscribers-perm uid Permᴰ.nil u = refl
subscribers-perm uid (Permᴰ.cons e p) u = ground (arith, subscribers-perm uid p)
subscribers-perm uid (Permᴰ.swap e f) u = ground arith
subscribers-perm uid (Permᴰ.trans p q) u =
    subscribers-perm uid p (omega (arith, occurrences-perm uid q)) ∙ subscribers-perm uid q u
