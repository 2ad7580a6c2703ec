-- ===== src/LibcReference.antt =====
-- A linear search and an insertion sort meet the interface of Libc: its laws can hold, and the
-- development's tests run on these.
use mathlib.Core.List.{Permᴰ}
use mathlib.Core.List.Permᴰ
use monolinux_c_library.Libc.{Ascends, IsOrder, Libc}
use monolinux_c_library.Prelude.{
  ℕ, zero, suc, ◌≡◌, ◌≢◌, refl, List, [], ◌∷◌, Option, none, some, get_elem?, All, Bool, true,
  false, arith, ltb, if◌then◌else◌,
}
use monolinux_c_library.Prelude.Int.{is_zero, ℤ, pos, negsuc}

abbrev pub is_positive : ℤ → Bool
is_positive (pos n) = ltb 0 n
is_positive (negsuc n) = false

abbrev pub bump : Option ℕ → Option ℕ
bump none = none
bump (some i) = some (suc i)

module _ {ℓ} {A : Type ℓ} where
  unfoldable pub search_from : (A → ℤ) → List A → Option ℕ
  search_from cmp [] = none
  search_from cmp (a ∷ l) = if is_zero (cmp a) then some 0 else bump (search_from cmp l)

  pub search_from_found :
      (cmp : A → ℤ) (l : List A) (i : ℕ)
      → search_from cmp l ≡ some i
      → (a : A) × (get_elem? l i ≡ some a) × (cmp a ≡ pos 0)
  unfolding search_from
  search_from_found cmp [] i e = absurd (ground arith)
  search_from_found cmp (a ∷ l) zero e = (a, refl, ground arith)
  search_from_found cmp (a ∷ l) (suc i) e = search_from_found cmp l i (ground arith)

  pub search_from_missing :
      (cmp : A → ℤ) (l : List A) → search_from cmp l ≡ none → All (λ a. cmp a ≢ pos 0) l
  unfolding search_from
  search_from_missing cmp [] e = tt
  search_from_missing cmp (a ∷ l) e = (ground arith, search_from_missing cmp l (ground arith))

  unfoldable pub place : (A → A → ℤ) → A → List A → List A
  place cmp a [] = a ∷ []
  place cmp a (b ∷ l) = if is_positive (cmp a b) then b ∷ place cmp a l else a ∷ b ∷ l

  unfoldable pub sort : (A → A → ℤ) → List A → List A
  unfolding place
  sort cmp [] = []
  sort cmp (a ∷ l) = place cmp a (sort cmp l)

  place-perm : (cmp : A → A → ℤ) (a : A) (l : List A) → Permᴰ (place cmp a l) (a ∷ l)
  unfolding place
  place-perm cmp a [] = Permᴰ.refl (a ∷ [])
  place-perm cmp a (b ∷ l) =
      elim (is_positive (cmp a b))
        as (λ t. Permᴰ (if t then b ∷ place cmp a l else a ∷ b ∷ l) (a ∷ b ∷ l)) [
          | true ↦ Permᴰ.trans (Permᴰ.cons refl (place-perm cmp a l)) (Permᴰ.swap refl refl)
          | false ↦ Permᴰ.refl (a ∷ b ∷ l)
        ]

  pub sort-perm : (cmp : A → A → ℤ) (l : List A) → Permᴰ (sort cmp l) l
  unfolding sort
  sort-perm cmp [] = Permᴰ.nil
  sort-perm cmp (a ∷ l) =
      Permᴰ.trans (place-perm cmp a (sort cmp l)) (Permᴰ.cons refl (sort-perm cmp l))

  place-Ascends :
      (cmp : A → A → ℤ) (a : A) (l : List A)
      → IsOrder cmp
      → Ascends cmp l
      → Ascends cmp (place cmp a l)
  unfolding place
  place-Ascends cmp a [] o h = tt
  place-Ascends cmp a (b ∷ []) o h = ground (arith, o.total a b)
  place-Ascends cmp a (b ∷ c ∷ l) o h =
      ground (arith, o.total a b, o.total a c, place-Ascends cmp a (c ∷ l) o h.1)

  pub sort-Ascends : (cmp : A → A → ℤ) (l : List A) → IsOrder cmp → Ascends cmp (sort cmp l)
  unfolding sort
  sort-Ascends cmp [] o = tt
  sort-Ascends cmp (a ∷ l) o = place-Ascends cmp a (sort cmp l) o (sort-Ascends cmp l o)

  abbrev pub reference : Libc A
  reference = record {
    bsearch = search_from;
    qsort = sort;
    bsearch_found = λ cmp l {i} f e. search_from_found cmp l i e;
    bsearch_missing = λ cmp l f e. search_from_missing cmp l e;
    qsort_perm = λ cmp l o. sort-perm cmp l;
    qsort_ascends = λ cmp l o. sort-Ascends cmp l o;
  }
