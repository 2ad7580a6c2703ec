-- ===== src/Inet.antt =====
-- The Internet checksum of src/ml_inet.c (RFC 1071): one's complement sum of 16-bit words.
-- A buffer is the list of its bytes from `buf_p` on.
pub mod Sum
pub mod Verify
mod Tests
use monolinux_c_library.Prelude.{
  ℕ, ◌+◌, ◌-◌, ◌*◌, ◌/◌, ◌%◌, ◌^◌, List, [], ◌∷◌, ltb, ◌==◌, if◌then◌else◌,
}
use monolinux_c_library.Prelude.Words.{u16, add32, shr}

unfoldable pub checksum_begin : ℕ
checksum_begin = 0

-- `htons(*buf_p)`: the 16-bit load and the swap together read the two bytes in network order.
abbrev pub htons : ℕ → ℕ → ℕ
htons b0 b1 = b0 * 2 ^ 8 + b1

-- `x & 0xff00` of a 16-bit value.
abbrev pub high_byte : ℕ → ℕ
high_byte x = x / 2 ^ 8 * 2 ^ 8

-- The `while` loop and the odd byte behind it. `size` counts bytes; where the last word is half
-- outside the buffer its second byte is masked away, so 0 stands for it.
unfoldable pub checksum_acc : ℕ → List ℕ → ℕ → ℕ
checksum_acc acc (b0 ∷ b1 ∷ buf) size =
    let rest = checksum_acc (add32 acc (htons b0 b1)) buf (size - 2) in
    if ltb 1 size then rest else if ltb 0 size then add32 acc (high_byte (htons b0 b1)) else acc
checksum_acc acc (b0 ∷ []) size = if ltb 0 size then add32 acc (high_byte (htons b0 0)) else acc
checksum_acc acc [] size = acc

-- `(acc >> 16) + (acc & 0xffff)`.
abbrev pub fold : ℕ → ℕ
fold acc = add32 (shr acc 16) (acc % 2 ^ 16)

-- `~acc` of a `uint32_t`, returned as `uint16_t`.
abbrev pub complement : ℕ → ℕ
complement acc = u16 (2 ^ 32 - 1 - acc)

unfoldable pub checksum_end : ℕ → ℕ
checksum_end acc = let a = fold acc in if shr a 16 == 0 then complement a else complement (fold a)

unfoldable pub checksum : List ℕ → ℕ → ℕ
unfolding checksum_begin checksum_acc checksum_end
checksum buf size = checksum_end (checksum_acc checksum_begin buf size)
