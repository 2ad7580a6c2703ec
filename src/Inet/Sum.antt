-- ===== src/Inet/Sum.antt =====
-- The accumulator of ml_inet_checksum_acc against the plain sum of the 16-bit words.
use monolinux_c_library.Prelude.{
  ℕ, ◌+◌, ◌-◌, ◌*◌, ◌^◌, ◌%◌, ◌≤◌, ◌<◌, ◌≡◌, zero, suc, refl, List, [], ◌∷◌, ◌++◌, length, arith,
}
use monolinux_c_library.Inet.{checksum_acc, checksum_end, htons}
use monolinux_c_library.Prelude.Words.{add32}

-- Every element is a byte.
abbrev pub IsBytes : List ℕ → Type 0
IsBytes [] = Unit {0}
IsBytes (b ∷ buf) = (b < 2 ^ 8) × IsBytes buf

-- The sum of the words in network order, an odd last byte padded with 0, with no wrap-around.
unfoldable pub word_sum : List ℕ → ℕ
word_sum [] = 0
word_sum (b0 ∷ []) = b0 * 2 ^ 8
word_sum (b0 ∷ b1 ∷ buf) = b0 * 2 ^ 8 + b1 + word_sum buf

pub word_sum-le : (buf : List ℕ) → IsBytes buf → word_sum buf ≤ 2 ^ 15 * (length buf + 1)
unfolding word_sum
word_sum-le [] h = omega arith
word_sum-le (b0 ∷ []) h = omega arith
word_sum-le (b0 ∷ b1 ∷ buf) h = omega (arith, word_sum-le buf h.1.1)

pub word_sum-lt : (buf : List ℕ) → IsBytes buf → length buf < 2 ^ 17 - 1 → word_sum buf < 2 ^ 32
word_sum-lt buf h l = omega (arith, word_sum-le buf h)

pub checksum_acc-eq-word_sum :
    (acc : ℕ) (buf : List ℕ)
    → acc + word_sum buf < 2 ^ 32
    → checksum_acc acc buf (length buf) ≡ acc + word_sum buf
unfolding checksum_acc word_sum
checksum_acc-eq-word_sum acc [] h = omega arith
checksum_acc-eq-word_sum acc (b0 ∷ []) h = ground arith
checksum_acc-eq-word_sum acc (b0 ∷ b1 ∷ buf) h =
    ground (arith, checksum_acc-eq-word_sum (acc + (b0 * 2 ^ 8 + b1)) buf)

-- What folding twice and inverting yields.
pub checksum_end_bounds :
    (acc : ℕ)
    → acc < 2 ^ 32
    → (checksum_end acc < 2 ^ 16) × ((acc + checksum_end acc) % (2 ^ 16 - 1) ≡ 0)
unfolding checksum_end
checksum_end_bounds acc h = ground arith

-- Zero is the checksum of exactly the positive multiples of 65535.
pub zero_of_multiple :
    (acc : ℕ) → acc < 2 ^ 32 → 0 < acc → acc % (2 ^ 16 - 1) ≡ 0 → checksum_end acc ≡ 0
unfolding checksum_end
zero_of_multiple acc h p e = ground arith

pub multiple_of_zero :
    (acc : ℕ) → acc < 2 ^ 32 → checksum_end acc ≡ 0 → (0 < acc) × (acc % (2 ^ 16 - 1) ≡ 0)
unfolding checksum_end
multiple_of_zero acc h e = ground arith

pub checksum_end_pos : (acc : ℕ) → acc < 2 ^ 32 → 0 < acc + checksum_end acc
unfolding checksum_end
checksum_end_pos acc h = ground arith

-- The bytes behind a prefix of even length do not matter to its sum.
pub checksum_acc-append :
    (k acc : ℕ) (xs rest : List ℕ)
    → length xs ≡ 2 * k
    → checksum_acc acc (xs ++ rest) (length xs) ≡ checksum_acc acc xs (length xs)
unfolding checksum_acc
checksum_acc-append zero acc [] [] e = refl
checksum_acc-append zero acc [] (r ∷ []) e = ground arith
checksum_acc-append zero acc [] (r ∷ r' ∷ rest) e = ground arith
checksum_acc-append zero acc (x ∷ xs) rest e = absurd (omega arith)
checksum_acc-append (suc k) acc [] rest e = absurd (omega arith)
checksum_acc-append (suc k) acc (x ∷ []) rest e = absurd (omega arith)
checksum_acc-append (suc k) acc (x ∷ y ∷ xs) rest e =
    ground (arith, checksum_acc-append k (add32 acc (htons x y)) xs rest)
