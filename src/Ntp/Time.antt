-- ===== src/Ntp/Time.antt =====
-- ntp_time_to_timespec of src/ml_ntp_client.c.
use monolinux_c_library.Prelude.{ℕ, ◌+◌, ◌-◌, ◌*◌, ◌%◌, ◌^◌, List, get_or, ltb, ◌==◌, if◌then◌else◌}
use monolinux_c_library.Prelude.Int.{ℤ, pos, negsuc}
use monolinux_c_library.Prelude.Words.{be32, shr}

abbrev pub jan_1900_to_1970 : ℕ
jan_1900_to_1970 = 2208988800

-- `struct timespec`.
pub record Timespec : Type 0 where
  pub tv_sec : ℤ
  pub tv_nsec : ℕ

-- The conversion of a `uint64_t` to `time_t`.
abbrev pub to_time_t : ℕ → ℤ
to_time_t secs = if ltb secs (2 ^ 63) then pos secs else negsuc (2 ^ 64 - 1 - secs)

-- Four bytes as a number, from a place in the array on.
abbrev pub word_at : List ℕ → ℕ → ℕ
word_at time i =
    be32 (get_or time i 0) (get_or time (i + 1) 0) (get_or time (i + 2) 0) (get_or time (i + 3) 0)

-- The first bit of `time_p[0]` tells whether the time is before or behind the wrap of 2036.
unfoldable pub ntp_time_to_timespec : List ℕ → Timespec
ntp_time_to_timespec time =
    let word = word_at time 0 in
    let secs = if shr (get_or time 0 0) 7 % 2 == 0 then word + 2 ^ 32 else word in
    record {
      tv_sec = to_time_t ((secs + 2 ^ 64 - jan_1900_to_1970) % 2 ^ 64);
      tv_nsec = shr (word_at time 4 * 1000000000 % 2 ^ 64) 32;
    }
