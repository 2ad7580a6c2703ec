-- ===== src/Inet/Verify.antt =====
-- A checksum stored into the zeroed checksum field makes the whole buffer sum to zero.
use monolinux_c_library.Prelude.{
  ℕ, zero, suc, ◌+◌, ◌-◌, ◌*◌, ◌/◌, ◌^◌, ◌%◌, ◌<◌, ◌≡◌, List, [], ◌∷◌, ◌++◌, length, length-append,
  arith, ap, ◌∙◌, sym,
}
use native.Mathlib.Nat.{zero-add}
use monolinux_c_library.Inet.{checksum_end, checksum}
use monolinux_c_library.Inet.Sum.{
  IsBytes, word_sum, word_sum-lt, multiple_of_zero, checksum_end_pos, checksum_acc-eq-word_sum,
  checksum_end_bounds, zero_of_multiple,
}

pub checksum-eq-end :
    (buf : List ℕ) → word_sum buf < 2 ^ 32 → checksum buf (length buf) ≡ checksum_end (word_sum buf)
unfolding checksum
checksum-eq-end buf h =
    ap checksum_end (checksum_acc-eq-word_sum 0 buf (omega arith) ∙ zero-add (word_sum buf))

-- For a buffer of at most 131070 bytes the accumulator cannot wrap: the checksum is a 16-bit
-- number that makes up the sum of the buffer's words to a multiple of 65535.
pub checksum_lem :
    (buf : List ℕ)
    → IsBytes buf
    → length buf < 2 ^ 17 - 1
    → (checksum buf (length buf) < 2 ^ 16)
      × ((word_sum buf + checksum buf (length buf)) % (2 ^ 16 - 1) ≡ 0)
checksum_lem buf h l =
    rw (checksum-eq-end buf (word_sum-lt buf h l))
      (checksum_end_bounds (word_sum buf) (word_sum-lt buf h l))

pub IsBytes-append : (xs ys : List ℕ) → IsBytes xs → IsBytes ys → IsBytes (xs ++ ys)
IsBytes-append [] ys hx hy = hy
IsBytes-append (x ∷ xs) ys hx hy = (hx.0, IsBytes-append xs ys hx.1 hy)

-- The bytes of a buffer with `hi` and `lo` at the (even) offset `2 * k`, read as one word.
pub word_sum-field :
    (k : ℕ) (front back : List ℕ) (hi lo : ℕ)
    → length front ≡ 2 * k
    → word_sum (front ++ (hi ∷ lo ∷ back)) ≡ word_sum (front ++ (0 ∷ 0 ∷ back)) + hi * 2 ^ 8 + lo
unfolding word_sum
word_sum-field zero [] back hi lo e = omega arith
word_sum-field zero (x ∷ front) back hi lo e = absurd (omega arith)
word_sum-field (suc k) [] back hi lo e = absurd (omega arith)
word_sum-field (suc k) (x ∷ []) back hi lo e = absurd (omega arith)
word_sum-field (suc k) (x ∷ y ∷ front) back hi lo e =
    omega (arith, word_sum-field k front back hi lo (omega arith))

module _ (k : ℕ) (front back : List ℕ) (even : length front ≡ 2 * k) (front_bytes : IsBytes front)
    (back_bytes : IsBytes back) (small : length front + length back + 2 < 2 ^ 17 - 1) where
  -- The buffer with a big-endian 16-bit field after `front`.
  abbrev pub with_field : ℕ → ℕ → List ℕ
  with_field hi lo = front ++ (hi ∷ lo ∷ back)

  word_sum-with_field :
      (hi lo : ℕ) → word_sum (with_field hi lo) ≡ word_sum (with_field 0 0) + hi * 2 ^ 8 + lo
  word_sum-with_field hi lo = word_sum-field k front back hi lo even

  with_field-lt : (hi lo : ℕ) → hi < 2 ^ 8 → lo < 2 ^ 8 → word_sum (with_field hi lo) < 2 ^ 32
  with_field-lt hi lo h l =
      word_sum-lt (with_field hi lo) (IsBytes-append front _ front_bytes (h, (l, back_bytes)))
        (omega (arith, length-append {0} front (hi ∷ lo ∷ back)))

  -- A buffer whose checksum field, at an even offset, was zero while the checksum was computed and
  -- then received the result high byte first, has the checksum 0. This is how a header is packed
  -- and validated.
  pub checksum-field :
      let c = checksum (with_field 0 0) (length (with_field 0 0)) in
      checksum (with_field (c / 2 ^ 8) (c % 2 ^ 8)) (length (with_field (c / 2 ^ 8) (c % 2 ^ 8)))
      ≡ 0
  checksum-field =
      let c = checksum (with_field 0 0) (length (with_field 0 0)) in
      let bounds = checksum_end_bounds _ (with_field-lt 0 0 (omega arith) (omega arith)) in
      let e = checksum-eq-end _ (with_field-lt 0 0 (omega arith) (omega arith)) in
      let pos = checksum_end_pos _ (with_field-lt 0 0 (omega arith) (omega arith)) in
      let lt = with_field-lt (c / 2 ^ 8) (c % 2 ^ 8) (omega arith) (omega arith) in
      checksum-eq-end _ lt
      ∙ zero_of_multiple _ lt (omega (arith, word_sum-with_field (c / 2 ^ 8) (c % 2 ^ 8)))
          (omega (arith, word_sum-with_field (c / 2 ^ 8) (c % 2 ^ 8)))

  -- Two buffers that both pass the check and differ in one aligned word alone differ there as
  -- 0x0000 and 0xffff do: every other corruption of a single word is detected.
  pub checksum_detects :
      (hi lo hi' lo' : ℕ)
      → hi < 2 ^ 8
      → lo < 2 ^ 8
      → hi' < 2 ^ 8
      → lo' < 2 ^ 8
      → checksum (with_field hi lo) (length (with_field hi lo)) ≡ 0
      → checksum (with_field hi' lo') (length (with_field hi' lo')) ≡ 0
      → hi * 2 ^ 8 + lo < hi' * 2 ^ 8 + lo'
      → (hi ≡ 0) × (lo ≡ 0) × (hi' ≡ 255) × (lo' ≡ 255)
  checksum_detects hi lo hi' lo' h l h' l' e e' d = omega (
    arith,
    word_sum-with_field hi lo,
    word_sum-with_field hi' lo',
    multiple_of_zero _ (with_field-lt hi lo h l)
        (sym (checksum-eq-end _ (with_field-lt hi lo h l)) ∙ e),
    multiple_of_zero _ (with_field-lt hi' lo' h' l')
        (sym (checksum-eq-end _ (with_field-lt hi' lo' h' l')) ∙ e'),
  )
