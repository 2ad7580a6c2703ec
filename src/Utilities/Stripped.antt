-- ===== src/Utilities/Stripped.antt =====
-- What stripping a string takes away.
use monolinux_c_library.Prelude.{
  ℕ, zero, suc, ◌≡◌, refl, sym, ap, ◌∙◌, [], ◌∷◌, ◌++◌, Option, true, false, length, take, get_or,
  All, append_assoc, append-nil, arith, Bool-cases, inl, inr, length-take,
}
use monolinux_c_library.Prelude.Text.{Text}
use monolinux_c_library.Utilities.Strip.{
  char_in_string, strip_set, skip, lstrip, cut, rstrip, strip,
}

-- Characters to strip, and to keep.
abbrev pub AreStripped : Text → Text → Type 0
AreStripped set = All (λ c. char_in_string c set ≡ true)

abbrev pub IsKept : Text → ℕ → Type 0
IsKept set c = char_in_string c set ≡ false

abbrev pub Starts : (ℕ → Type 0) → Text → Type 0
Starts P [] = Unit {0}
Starts P (c ∷ str) = P c

abbrev pub Ends : (ℕ → Type 0) → Text → Type 0
Ends P [] = Unit {0}
Ends P (c ∷ []) = P c
Ends P (c ∷ d ∷ str) = Ends P (d ∷ str)

take-last : (n : ℕ) (str : Text) → length str ≡ suc n → str ≡ take n str ++ (get_or str n 0 ∷ [])
take-last n [] h = absurd (omega arith)
take-last zero (c ∷ []) h = refl
take-last zero (c ∷ d ∷ str) h = absurd (omega arith)
take-last (suc n) (c ∷ str) h = ap (λ l. c ∷ l) (take-last n str (omega arith))

Ends-last :
    (P : ℕ → Type 0) (n : ℕ) (str : Text) → length str ≡ suc n → P (get_or str n 0) → Ends P str
Ends-last P n [] h p = tt
Ends-last P zero (c ∷ []) h p = p
Ends-last P zero (c ∷ d ∷ str) h p = absurd (omega arith)
Ends-last P (suc n) (c ∷ []) h p = absurd (omega arith)
Ends-last P (suc n) (c ∷ d ∷ str) h p = Ends-last P n (d ∷ str) (omega arith) p

Ends-length : (P : ℕ → Type 0) (str : Text) → length str ≡ 0 → Ends P str
Ends-length P [] h = tt
Ends-length P (c ∷ str) h = absurd (omega arith)

AreStripped-append :
    (set xs ys : Text) → AreStripped set xs → AreStripped set ys → AreStripped set (xs ++ ys)
AreStripped-append set [] ys h k = k
AreStripped-append set (x ∷ xs) ys h k = (h.0, AreStripped-append set xs ys h.1 k)

cut_lem :
    (set : Text) (n : ℕ) (str : Text)
    → length str ≡ n
    → (back : Text) × (str ≡ cut set n str ++ back)
      × AreStripped set back
      × Ends (IsKept set) (cut set n str)
unfolding cut
cut_lem set zero str h = ([], sym (append-nil str), tt, Ends-length (IsKept set) str h)
cut_lem set (suc n) str h = elim (Bool-cases (char_in_string (get_or str n 0) set)) [
  | inr p ↦ ([], rw p (sym (append-nil str)), tt, rw p (Ends-last (IsKept set) n str h p))
  | inl p ↦
      let (back, e, s, k) = cut_lem set n (take n str) (omega (arith, length-take n str)) in
      (
        back ++ (get_or str n 0 ∷ []),
        rw p (
            take-last n str h
            ∙ ap (λ l. l ++ (get_or str n 0 ∷ [])) e
            ∙ append_assoc (cut set n (take n str)) back (get_or str n 0 ∷ [])),
        AreStripped-append set back (get_or str n 0 ∷ []) s (p, tt),
        rw p k,
      )
]

skip_lem :
    (set str : Text)
    → Ends (IsKept set) str
    → (front : Text) × (str ≡ front ++ skip set str)
      × AreStripped set front
      × Starts (IsKept set) (skip set str)
      × Ends (IsKept set) (skip set str)
unfolding skip
skip_lem set [] h = ([], refl, tt, tt, tt)
skip_lem set (c ∷ []) h = ([], rw h refl, tt, rw h h, rw h h)
skip_lem set (c ∷ d ∷ str) h = elim (Bool-cases (char_in_string c set)) [
  | inr p ↦ ([], rw p refl, tt, rw p p, rw p h)
  | inl p ↦
      let (front, e, s, k, l) = skip_lem set (d ∷ str) h in
      (c ∷ front, rw p (ap (λ t. c ∷ t) e), (p, s), rw p k, rw p l)
]

-- ml_strip takes characters of the set, and no others, from both ends of a string, and as many as
-- there are: what is left is empty or starts and ends with a character that is not in the set.
pub strip_lem :
    (str : Text) (set : Option Text)
    → (front back : Text) × (str ≡ front ++ (strip str set ++ back))
      × AreStripped (strip_set set) front
      × AreStripped (strip_set set) back
      × Starts (IsKept (strip_set set)) (strip str set)
      × Ends (IsKept (strip_set set)) (strip str set)
unfolding strip lstrip rstrip
strip_lem str set =
    let (back, e, s, k) = cut_lem (strip_set set) (length str) str refl in
    let (front, f, t, l, m) = skip_lem (strip_set set) (cut (strip_set set) (length str) str) k in
    (
      front,
      back,
      e
          ∙ ap (λ l. l ++ back) f
          ∙ append_assoc front (skip (strip_set set) (cut (strip_set set) (length str) str)) back,
      t,
      s,
      l,
      m,
    )

Ends-get_or :
    (P : ℕ → Type 0) (n : ℕ) (str : Text) → length str ≡ suc n → Ends P str → P (get_or str n 0)
Ends-get_or P n [] h p = absurd (omega arith)
Ends-get_or P zero (c ∷ []) h p = p
Ends-get_or P zero (c ∷ d ∷ str) h p = absurd (omega arith)
Ends-get_or P (suc n) (c ∷ []) h p = absurd (omega arith)
Ends-get_or P (suc n) (c ∷ d ∷ str) h p = Ends-get_or P n (d ∷ str) (omega arith) p

skip-kept : (set str : Text) → Starts (IsKept set) str → skip set str ≡ str
unfolding skip
skip-kept set [] s = refl
skip-kept set (c ∷ str) s = rw s

cut-kept :
    (set : Text) (n : ℕ) (str : Text) → length str ≡ n → Ends (IsKept set) str → cut set n str ≡ str
unfolding cut
cut-kept set zero str h k = refl
cut-kept set (suc n) str h k = rw (Ends-get_or (IsKept set) n str h k)

-- A string that starts and ends with characters to keep is left as it is.
pub strip-kept :
    (str : Text) (set : Option Text)
    → Starts (IsKept (strip_set set)) str
    → Ends (IsKept (strip_set set)) str
    → strip str set ≡ str
unfolding strip lstrip rstrip
strip-kept str set s e =
    ap (skip (strip_set set)) (cut-kept (strip_set set) (length str) str refl e)
    ∙ skip-kept (strip_set set) str s
