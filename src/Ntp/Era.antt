-- ===== src/Ntp/Era.antt =====
-- The range of the time conversion of src/ml_ntp_client.c.
use monolinux_c_library.Prelude.{
  ℕ, ◌+◌, ◌-◌, ◌*◌, ◌/◌, ◌%◌, ◌^◌, ◌≡◌, ◌<◌, refl, ap, ◌∙◌, List, [], ◌∷◌, ◌++◌, arith, ltb, ◌==◌,
  if◌then◌else◌,
}
use monolinux_c_library.Prelude.Int.{pos}
use monolinux_c_library.Prelude.Words.{be32}
use monolinux_c_library.Ntp.Time.{to_time_t, ntp_time_to_timespec, jan_1900_to_1970}

abbrev pub bytes32 : ℕ → List ℕ
bytes32 n = n / 2 ^ 24 ∷ n / 2 ^ 16 % 2 ^ 8 ∷ n / 2 ^ 8 % 2 ^ 8 ∷ n % 2 ^ 8 ∷ []

-- How a server sends a time: the seconds since 1900, modulo 2^32, and the fraction of a second.
abbrev pub ntp_time : ℕ → ℕ → List ℕ
ntp_time secs fraction = bytes32 ((secs + jan_1900_to_1970) % 2 ^ 32) ++ bytes32 fraction

be32-bytes : (n : ℕ) → be32 (n / 2 ^ 24) (n / 2 ^ 16 % 2 ^ 8) (n / 2 ^ 8 % 2 ^ 8) (n % 2 ^ 8) ≡ n
be32-bytes n = omega arith

high_bit : (n : ℕ) → n < 2 ^ 32 → (n / 2 ^ 24 / 2 ^ 7 % 2 == 0) ≡ ltb n (2 ^ 31)
high_bit n h = ground arith

seconds :
    (secs n : ℕ)
    → secs < 2 ^ 32 + 2 ^ 31 - jan_1900_to_1970
    → n ≡ (secs + jan_1900_to_1970) % 2 ^ 32
    → to_time_t (((if ltb n (2 ^ 31) then n + 2 ^ 32 else n) + 2 ^ 64 - jan_1900_to_1970) % 2 ^ 64)
      ≡ pos secs
seconds secs n h e = ground arith

nanoseconds :
    (fraction : ℕ)
    → fraction < 2 ^ 32
    → (fraction * 1000000000 % 2 ^ 64 / 2 ^ 32 ≡ fraction * 1000000000 / 2 ^ 32)
      × (fraction * 1000000000 / 2 ^ 32 < 1000000000)
nanoseconds fraction f = (omega arith, omega arith)

converted :
    (n fraction : ℕ)
    → n < 2 ^ 32
    → fraction < 2 ^ 32
    → ntp_time_to_timespec (bytes32 n ++ bytes32 fraction) ≡ record {
      tv_sec =
          to_time_t
            (((if ltb n (2 ^ 31) then n + 2 ^ 32 else n) + 2 ^ 64 - jan_1900_to_1970) % 2 ^ 64);
      tv_nsec = fraction * 1000000000 / 2 ^ 32;
    }
unfolding ntp_time_to_timespec
converted n fraction h f =
    rw (be32-bytes n, be32-bytes fraction, high_bit n h, (nanoseconds fraction f).0) refl

-- A time from 1970 on is converted right if it is before the next turn of the era's half, in
-- February 2104; the nanoseconds are the fraction rounded down, and less than a second.
pub ntp_time_to_timespec-ntp_time :
    (secs fraction : ℕ)
    → secs < 2 ^ 32 + 2 ^ 31 - jan_1900_to_1970
    → fraction < 2 ^ 32
    → (ntp_time_to_timespec (ntp_time secs fraction)
        ≡ record { tv_sec = pos secs; tv_nsec = fraction * 1000000000 / 2 ^ 32 })
      × (fraction * 1000000000 / 2 ^ 32 < 1000000000)
ntp_time_to_timespec-ntp_time secs fraction h f =
    let n = (secs + jan_1900_to_1970) % 2 ^ 32 in
    (
      converted n fraction (omega arith) f
          ∙ ap (λ s. record { tv_sec = s; tv_nsec = fraction * 1000000000 / 2 ^ 32 })
              (seconds secs n h refl),
      (nanoseconds fraction f).1,
    )
