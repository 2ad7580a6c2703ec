-- ===== src/Utilities/Chunks.antt =====
-- ml_hexdump_file of src/ml.c reads a file in chunks, and prints it as one.
use monolinux_c_library.Prelude.{
  ℕ, zero, suc, ◌+◌, ◌-◌, ◌*◌, ◌%◌, ◌<◌, ◌≤◌, ◌≡◌, refl, ◌++◌, true, some, ltb, take, drop,
  take-all, take-take-drop, take-append-drop, length-take, length-drop, length, arith, ◌∙◌, sym,
  ltb→lt, ltb→ge, Bool-cases, inl, inr,
}
use monolinux_c_library.Prelude.Int.{ℤ, pos, negsuc, ◌-ℤ◌}
use monolinux_c_library.Prelude.Text.{Text}
use monolinux_c_library.Prelude.Words.{u32}
use monolinux_c_library.Utilities.Hexdump.{
  Format, hexdump, chunk_size, file_loop, hexdump_file, prepend,
}
use monolinux_c_library.Utilities.Dumps.{hexdump-append}

-- The bytes that are to be dumped: all of them for a negative size.
abbrev pub wanted : ℤ → Text → Text
wanted (pos n) file = take n file
wanted (negsuc n) file = file

module _ (format : Format) where
  -- The size of the buffer as a variable, since `take 256` would be computed.
  take-short :
      (c n : ℕ) (file : Text) → length (take c file) < c → c ≤ n → take c file ≡ take n file
  take-short c n file h hn =
      let l : length file < c = omega (arith, length-take c file) in
      take-all c file (omega arith) ∙ sym (take-all n file (omega arith))

  take-short_all : (c : ℕ) (file : Text) → length (take c file) < c → take c file ≡ file
  take-short_all c file h = take-all c file (omega (arith, length-take c file))

  length-take_le : (c : ℕ) (file : Text) → length (take c file) ≤ c
  length-take_le c file = omega (arith, length-take c file)

  length-take-full : (c : ℕ) (file : Text) → c ≤ length (take c file) → length (take c file) ≡ c
  length-take-full c file h = omega (arith, length-take c file)

  take-full-le : (c : ℕ) (file : Text) → length (take c file) ≡ c → c ≤ length file
  take-full-le c file h = omega (arith, length-take c file)

  wanted-short :
      (file : Text) (size : ℤ)
      → length (take (chunk_size size) file) < 256
      → take (chunk_size size) file ≡ wanted size file
  unfolding chunk_size
  wanted-short file (pos n) h = elim (Bool-cases (ltb n 256)) [
    | inl p ↦ rw p refl
    | inr p ↦ rw p (take-short 256 n file (rw p at h) (ground arith))
  ]
  wanted-short file (negsuc n) h = take-short_all 256 file h

  chunk_size-full :
      (file : Text) (size : ℤ) → 256 ≤ length (take (chunk_size size) file) → chunk_size size ≡ 256
  unfolding chunk_size
  chunk_size-full file (pos n) h = elim (Bool-cases (ltb n 256)) [
    | inl p ↦ absurd (
        let h' : 256 ≤ length (take n file) = rw p at h in
        omega (arith, h', length-take_le n file, ltb→lt n 256 p))
    | inr p ↦ rw p refl
  ]
  chunk_size-full file (negsuc n) h = refl

  minus_256 : (n : ℕ) → 256 ≤ n → pos n -ℤ pos 256 ≡ pos (n - 256)
  unfolding ◌-ℤ◌
  minus_256 n h = ground arith

  negsuc-minus_256 : (n : ℕ) → negsuc n -ℤ pos 256 ≡ negsuc (n + 256)
  unfolding ◌-ℤ◌
  negsuc-minus_256 n = ground arith

  chunk_size-le : (n : ℕ) → chunk_size (pos n) ≡ 256 → 256 ≤ n
  unfolding chunk_size
  chunk_size-le n h = ground arith

  wanted-long :
      (file : Text) (size : ℤ)
      → chunk_size size ≡ 256
      → wanted size file ≡ take 256 file ++ wanted (size -ℤ pos 256) (drop 256 file)
  wanted-long file (pos n) h =
      let l = chunk_size-le n h in
      rw (minus_256 n l) (take-take-drop n 256 (n - 256) file (omega arith))
  wanted-long file (negsuc n) h = rw (negsuc-minus_256 n) (sym (take-append-drop 256 file))

  join :
      (x w : Text) (offset : ℕ)
      → length x % 16 ≡ 0
      → prepend format
          (hexdump format x (length x) (u32 offset))
          (some (hexdump format w (length w) (u32 (offset + length x))))
        ≡ some (hexdump format (x ++ w) (length (x ++ w)) (u32 offset))
  join x w offset h = rw (hexdump-append format x w offset h) refl

  file_loop-hexdump :
      (fuel : ℕ) (file : Text) (offset : ℕ) (size : ℤ)
      → length file < 256 * fuel
      → let bytes = wanted size file in
        file_loop format fuel file offset size
        ≡ some (hexdump format bytes (length bytes) (u32 offset))
  unfolding file_loop
  file_loop-hexdump zero file offset size h = absurd (omega arith)
  file_loop-hexdump (suc fuel) file offset size h =
      elim (Bool-cases (ltb (length (take (chunk_size size) file)) 256)) [
        | inl p ↦ rw (p, wanted-short file size (ltb→lt _ _ p)) refl
        | inr p ↦
            let full : 256 ≤ length (take (chunk_size size) file) = ltb→ge _ _ p in
            let c = chunk_size-full file size full in
            let l : length (take 256 file) ≡ 256 = length-take-full 256 file (rw c at full) in
            let n = length (take 256 file) in
            let rest =
              file_loop-hexdump fuel (drop 256 file) (offset + n) (size -ℤ pos n)
                (omega (arith, h, length-drop 256 file, take-full-le 256 file l)) in
            let more : wanted size file ≡ take 256 file ++ wanted (size -ℤ pos n) (drop 256 file) =
              rw l (wanted-long file size c) in
            rw (p, c, rest, more)
              (join (take 256 file) (wanted (size -ℤ pos n) (drop 256 file)) offset
                (omega (arith, l)))
      ]

  -- ml_hexdump_file, on a file that it can position in, prints what hexdump() prints of the bytes from
  -- the offset on, `size` of them or all if `size` is negative, as if it had read them at once; fuel
  -- for a round more than the file has chunks of 256 bytes is enough.
  pub hexdump_file_lem :
      (fuel : ℕ) (file : Text) (offset : ℕ) (size : ℤ)
      → length file < 256 * fuel
      → let bytes = wanted size (drop offset file) in
        hexdump_file format fuel true file offset size
        ≡ some (hexdump format bytes (length bytes) (u32 offset), pos 0)
  unfolding hexdump_file
  hexdump_file_lem fuel file offset size h =
      rw
        (file_loop-hexdump fuel (drop offset file) offset size
          (omega (arith, length-drop offset file)))
        refl
