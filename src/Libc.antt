-- ===== src/Libc.antt =====
-- What the program relies on of the C library's bsearch() and qsort(). The library is not part of
-- the repository, so the components that use it take this interface as a parameter.

use mathlib.Core.List.{Permᴰ}
use monolinux_c_library.Prelude.{
  ℕ, ◌≡◌, ◌≢◌, ◌⊎◌, List, [], ◌∷◌, Option, none, some, get_elem?, All,
}
use monolinux_c_library.Prelude.Int.{ℤ, pos, ◌≤ℤ◌}

-- The elements that compare above the key stand first, and those below it last.
abbrev pub Falls {ℓ} : {A : Type ℓ} → (A → ℤ) → List A → Type 0
Falls cmp [] = Unit {0}
Falls cmp (a ∷ []) = Unit {0}
Falls cmp (a ∷ b ∷ l) = (cmp b ≤ℤ cmp a) × Falls cmp (b ∷ l)

abbrev pub Ascends {ℓ} : {A : Type ℓ} → (A → A → ℤ) → List A → Type 0
Ascends cmp [] = Unit {0}
Ascends cmp (a ∷ []) = Unit {0}
Ascends cmp (a ∷ b ∷ l) = (cmp a b ≤ℤ pos 0) × Ascends cmp (b ∷ l)

-- A comparison that qsort() accepts.
pub record IsOrder {ℓ} {A : Type ℓ} (cmp : A → A → ℤ) : Type ℓ where
  pub total : (a b : A) → (cmp a b ≤ℤ pos 0) ⊎ (cmp b a ≤ℤ pos 0)
  pub trans : (a b c : A) → cmp a b ≤ℤ pos 0 → cmp b c ≤ℤ pos 0 → cmp a c ≤ℤ pos 0

-- `bsearch cmp l` gets the comparison with the key, and returns the index of an element.
pub record Libc {ℓ} (A : Type ℓ) : Type ℓ where
  pub bsearch : (A → ℤ) → List A → Option ℕ
  pub qsort : (A → A → ℤ) → List A → List A
  pub bsearch_found :
      (cmp : A → ℤ) (l : List A) {i : ℕ}
      → Falls cmp l
      → bsearch cmp l ≡ some i
      → (a : A) × (get_elem? l i ≡ some a) × (cmp a ≡ pos 0)
  pub bsearch_missing :
      (cmp : A → ℤ) (l : List A) → Falls cmp l → bsearch cmp l ≡ none → All (λ a. cmp a ≢ pos 0) l
  pub qsort_perm : (cmp : A → A → ℤ) (l : List A) → IsOrder cmp → Permᴰ (qsort cmp l) l
  pub qsort_ascends : (cmp : A → A → ℤ) (l : List A) → IsOrder cmp → Ascends cmp (qsort cmp l)
