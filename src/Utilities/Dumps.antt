-- ===== src/Utilities/Dumps.antt =====
-- hexdump() of src/ml.c on bytes behind whole lines.
use monolinux_c_library.Prelude.{
  ℕ, zero, suc, ◌+◌, ◌-◌, ◌%◌, ◌<◌, ◌≤◌, ◌≡◌, refl, ap, [], ◌∷◌, ◌++◌, append_assoc, length-append,
  ◌==◌, length, get_or, arith, Bool-cases, inl, inr,
}
use monolinux_c_library.Prelude.Text.{Text}
use monolinux_c_library.Prelude.Words.{u32}
use monolinux_c_library.Utilities.Hexdump.{
  Format, printable, print_ascii, line_start, line_end, last_line, hexdump_from, hexdump,
}

get_or-shift : (xs ys : Text) (i j : ℕ) → j ≡ length xs + i → get_or (xs ++ ys) j 0 ≡ get_or ys i 0
get_or-shift [] ys i j h = ap (λ k. get_or ys k 0) (omega arith)
get_or-shift (x ∷ xs) ys i zero h = absurd (omega arith)
get_or-shift (x ∷ xs) ys i (suc j) h = get_or-shift xs ys i j (omega arith)

get_or-prefix : (xs ys : Text) (i : ℕ) → i < length xs → get_or (xs ++ ys) i 0 ≡ get_or xs i 0
get_or-prefix [] ys i h = absurd (omega arith)
get_or-prefix (x ∷ xs) ys zero h = refl
get_or-prefix (x ∷ xs) ys (suc i) h = get_or-prefix xs ys i (omega arith)

module _ (format : Format) where
  printable-shift :
      (xs ys : Text) (i j n : ℕ)
      → j ≡ length xs + i
      → printable format (xs ++ ys) j n ≡ printable format ys i n
  printable-shift xs ys i j zero h = refl
  printable-shift xs ys i j (suc n) h =
      rw (get_or-shift xs ys i j h, printable-shift xs ys (suc i) (suc j) n (omega arith)) refl

  printable-prefix :
      (xs ys : Text) (i n : ℕ)
      → i + n ≤ length xs
      → printable format (xs ++ ys) i n ≡ printable format xs i n
  printable-prefix xs ys i zero h = refl
  printable-prefix xs ys i (suc n) h =
      rw (get_or-prefix xs ys i (omega arith), printable-prefix xs ys (suc i) n (omega arith)) refl

  line_end-shift :
      (xs ys : Text) (p q : ℕ)
      → length xs % 16 ≡ 0
      → q ≡ length xs + p
      → line_end format (xs ++ ys) q ≡ line_end format ys p
  unfolding line_end print_ascii
  line_end-shift xs ys p q h e = elim (Bool-cases (p % 16 == 15)) [
    | inl t ↦ ground (arith, printable-shift xs ys (p - 15) (q - 15) 16 (ground arith))
    | inr t ↦ ground arith
  ]

  line_end-prefix :
      (xs ys : Text) (p : ℕ) → p < length xs → line_end format (xs ++ ys) p ≡ line_end format xs p
  unfolding line_end print_ascii
  line_end-prefix xs ys p h = elim (Bool-cases (p % 16 == 15)) [
    | inl t ↦ ground (arith, printable-prefix xs ys (p - 15) 16 (ground arith))
    | inr t ↦ ground arith
  ]

  last_line-shift :
      (xs ys : Text) (p q : ℕ)
      → length xs % 16 ≡ 0
      → q ≡ length xs + p
      → last_line format (xs ++ ys) q ≡ last_line format ys p
  unfolding last_line print_ascii
  last_line-shift xs ys p q h e =
      ground (arith, printable-shift xs ys (p - p % 16) (q - p % 16) (p % 16) (omega arith))

  -- Behind whole lines a dump goes on as one of its own.
  hexdump_from-shift :
      (xs ys : Text) (offset n p q : ℕ)
      → length xs % 16 ≡ 0
      → q ≡ length xs + p
      → hexdump_from format (xs ++ ys) offset n q ≡ hexdump_from format ys (offset + length xs) n p
  unfolding hexdump_from
  hexdump_from-shift xs ys offset zero p q h e = last_line-shift xs ys p q h e
  hexdump_from-shift xs ys offset (suc n) p q h e =
      let start : line_start format offset q ≡ line_start format (offset + length xs) p =
        ground arith in
      rw
        (
          start,
          get_or-shift xs ys p q e,
          line_end-shift xs ys p q h e,
          hexdump_from-shift xs ys offset n (suc p) (suc q) h (omega arith),
        )
        refl

  hexdump_from-append :
      (xs ys : Text) (offset m k n p : ℕ)
      → length xs % 16 ≡ 0
      → p + k ≡ length xs
      → n ≡ k + m
      → hexdump_from format (xs ++ ys) offset n p
        ≡ hexdump_from format xs offset k p ++ hexdump_from format ys (offset + length xs) m 0
  unfolding hexdump_from last_line
  hexdump_from-append xs ys offset m zero n p h e en =
      let last : last_line format xs p ≡ [] = ground arith in
      rw (last, hexdump_from-shift xs ys offset n 0 p h (omega arith))
        (ap (λ j. hexdump_from format ys (offset + length xs) j 0) (omega arith))
  hexdump_from-append xs ys offset m (suc k) zero p h e en = absurd (omega arith)
  hexdump_from-append xs ys offset m (suc k) (suc n) p h e en =
      let tail = hexdump_from format ys (offset + length xs) m 0 in
      let rest = hexdump_from format xs offset k (suc p) in
      rw
        (
          get_or-prefix xs ys p (omega arith),
          line_end-prefix xs ys p (omega arith),
          hexdump_from-append xs ys offset m k n (suc p) h (omega arith) (omega arith),
        )
        (rw
          (
            append_assoc (line_start format offset p)
                (format.hex2 (get_or xs p 0) ++ (32 ∷ (line_end format xs p ++ rest))) tail,
            append_assoc (format.hex2 (get_or xs p 0)) (32 ∷ (line_end format xs p ++ rest)) tail,
            append_assoc (line_end format xs p) rest tail,
          )
          refl)

  -- Only the lower 32 bits of the offset are printed.
  hexdump_from-u32 :
      (buf : Text) (o o' n p : ℕ)
      → u32 o ≡ u32 o'
      → hexdump_from format buf o n p ≡ hexdump_from format buf o' n p
  unfolding hexdump_from
  hexdump_from-u32 buf o o' zero p h = refl
  hexdump_from-u32 buf o o' (suc n) p h =
      let start : u32 (o + p) ≡ u32 (o' + p) = omega arith in
      rw (start, hexdump_from-u32 buf o o' n (suc p) h) refl

  -- A dump of whole lines, and one of what follows at its own offset, are the dump of both.
  pub hexdump-append :
      (xs ys : Text) (offset : ℕ)
      → length xs % 16 ≡ 0
      → hexdump format (xs ++ ys) (length (xs ++ ys)) (u32 offset)
        ≡ hexdump format xs (length xs) (u32 offset)
          ++ hexdump format ys (length ys) (u32 (offset + length xs))
  unfolding hexdump
  hexdump-append xs ys offset h =
      let o = u32 offset in
      rw
        (
          hexdump_from-append xs ys o (length ys) (length xs) (length (xs ++ ys)) 0 h (omega arith)
              (length-append xs ys),
          hexdump_from-u32 ys (o + length xs) (u32 (offset + length xs)) (length ys) 0
              (omega arith),
        )
        refl
