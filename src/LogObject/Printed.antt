-- ===== src/LogObject/Printed.antt =====
-- What ml_log_object_vprint of src/ml_log_object.c writes.
use monolinux_c_library.Prelude.{
  ℕ, zero, suc, ◌+◌, ◌≤◌, ◌<◌, ◌≡◌, refl, ap, ◌∙◌, sym, List, [], ◌∷◌, ◌++◌, append_assoc, Option,
  none, some, false, All, ltb, leb, take, take-all, length-take, length, length-append, lt→ltb,
  Bool-cases, inl, inr, if◌then◌else◌, arith,
}
use monolinux_c_library.Prelude.Int.{ℤ}
use monolinux_c_library.Prelude.Text.{Text, codes}
use monolinux_c_library.LogObject.Registry.{Object, is_enabled_for}
use monolinux_c_library.LogObject.Print.{
  start_buffer, add_text, and_add, end_line, line_header, vprint,
}

-- The number of bytes as a variable, since `take 511` would be computed.
take-take_append : (n : ℕ) (xs ys : Text) → take n (take n xs ++ ys) ≡ take n (xs ++ ys)
take-take_append zero xs ys = refl
take-take_append (suc n) [] ys = refl
take-take_append (suc n) (x ∷ xs) ys = ap (λ l. x ∷ l) (take-take_append n xs ys)

take-le : (n m : ℕ) (xs : Text) → (n ≤ m) → take n (take m xs) ≡ take n xs
take-le zero m xs h = refl
take-le (suc n) zero xs h = absurd (omega arith)
take-le (suc n) (suc m) [] h = refl
take-le (suc n) (suc m) (x ∷ xs) h = ap (λ l. x ∷ l) (take-le n m xs (omega arith))

cut :
    (n : ℕ) (xs : Text)
    → take (if leb (suc n) (length xs) then n else length xs) (take n xs) ≡ take n xs
cut n xs = elim (Bool-cases (leb (suc n) (length xs))) [
  | inl p ↦ rw p (take-le n n xs (omega arith))
  | inr p ↦ rw p (
      take-le (length xs) n xs (ground arith)
      ∙ (take-all (length xs) xs (omega arith) ∙ sym (take-all n xs (ground arith))))
]

-- The line that is written: all of it, or its first 511 bytes, and a newline.
abbrev pub line_of : Object → ℤ → Text → Text → Text
line_of self level date message =
    take 511 (date ++ (line_header self level ++ message)) ++ codes "\n"

le→ltb_false : (a b : ℕ) → b ≤ a → ltb a b ≡ false
le→ltb_false a b h = ground arith

add_text-twice :
    (date h message : Text)
    → length date < 512
    → and_add message (add_text h (start_buffer date)) ≡ (
        if ltb 512 (length date + length h)
        then none
        else some (record {
          content = take 511 (date ++ (h ++ message));
          length = length date + length h + length message;
        }))
unfolding add_text
add_text-twice date h message hd =
    rw (lt→ltb (length date) 512 hd, le→ltb_false 512 (length date) (omega arith))
      (elim (Bool-cases (ltb 512 (length date + length h))) [
        | inl p ↦ rw p refl
        | inr p ↦ rw (p, take-take_append 511 (date ++ h) message, append_assoc date h message) refl
      ])

end_line-cut :
    (xs : Text) (k : ℕ)
    → k ≡ length xs
    → end_line (record { content = take 511 xs; length = k }) ≡ take 511 xs ++ codes "\n"
end_line-cut xs k e = rw (e, cut 511 xs) refl

length-parts : (xs ys zs : Text) → length xs + length ys + length zs ≡ length (xs ++ (ys ++ zs))
length-parts xs ys zs = omega (arith, length-append xs (ys ++ zs), length-append ys zs)

length-line : (n : ℕ) (xs : Text) → length (take n xs ++ codes "\n") ≤ suc n
length-line n xs = omega (arith, length-append (take n xs) (codes "\n"), length-take n xs)

-- The buffer of 512 bytes holds the line with its newline.
abbrev pub Fits : Option (List Text) → Type 0
Fits none = Unit
Fits (some lines) = All (λ l. length l ≤ 512) lines

-- With the time in less than 512 bytes: a message of a level that is not enabled is not written. Any
-- other is written as one line of the time, the level, the name and the text, cut off at 511 bytes,
-- and a newline, so of 512 bytes at most, unless the time, the level and the name have more than 512
-- bytes together, in which case the write goes outside the buffer.
pub vprint_lem :
    (self : Object) (level : ℤ) (date message : Text)
    → length date < 512
    → (vprint self level date message ≡ (
        if is_enabled_for self level
        then if ltb 512 (length date + length (line_header self level))
          then none
          else some (line_of self level date message ∷ [])
        else some []))
      × Fits (vprint self level date message)
unfolding vprint
vprint_lem self level date message h =
    let l = add_text-twice date (line_header self level) message h in
    rw l (elim (Bool-cases (is_enabled_for self level)) [
      | inl e ↦ rw e (elim (Bool-cases (ltb 512 (length date + length (line_header self level)))) [
        | inl p ↦ rw p (refl, tt)
        | inr p ↦
            rw
              (
                p,
                end_line-cut (date ++ (line_header self level ++ message))
                    (length date + length (line_header self level) + length message)
                    (length-parts date (line_header self level) message),
              )
              (refl, (length-line 511 (date ++ (line_header self level ++ message)), tt))
      ])
      | inr e ↦ rw e (refl, tt)
    ])
