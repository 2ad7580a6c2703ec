-- ===== src/Inet/Tests.antt =====
-- The checksum of concrete buffers.
use monolinux_c_library.Prelude.{ℕ, ◌/◌, ◌%◌, ◌^◌, ◌≡◌, refl, List, [], ◌∷◌, arith}
use monolinux_c_library.Inet.{checksum}
use monolinux_c_library.Inet.Verify.{checksum-field}

-- The example of RFC 1071.
abbrev example : List ℕ
example = 0x00 ∷ 0x01 ∷ 0xf2 ∷ 0x03 ∷ 0xf4 ∷ 0xf5 ∷ 0xf6 ∷ 0xf7 ∷ []

example-checksum : checksum example 8 ≡ 0x220d
unfolding checksum
example-checksum = refl

-- An odd size masks the byte behind the buffer.
odd_checksum : checksum example 7 ≡ 0x2304
unfolding checksum
odd_checksum = refl

checksum-field_example :
    checksum
      (0x12
        ∷ 0x34
        ∷ checksum (0x12 ∷ 0x34 ∷ 0 ∷ 0 ∷ 0x56 ∷ []) 5 / 2 ^ 8
        ∷ checksum (0x12 ∷ 0x34 ∷ 0 ∷ 0 ∷ 0x56 ∷ []) 5 % 2 ^ 8
        ∷ 0x56
        ∷ [])
      5
    ≡ 0
checksum-field_example =
    checksum-field 1 (0x12 ∷ 0x34 ∷ []) (0x56 ∷ []) refl (omega arith) (omega arith) (omega arith)
