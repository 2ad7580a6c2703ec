-- ===== src/Ntp/Tests.antt =====
-- A kernel whose one server answers with a time of 2020, and half a second.
use monolinux_c_library.Prelude.{
  ℕ, ◌*◌, ◌/◌, ◌^◌, ◌≡◌, ◌<◌, refl, List, [], ◌∷◌, ◌++◌, ◌⊎◌, false, replicate, arith,
}
use monolinux_c_library.Prelude.Int.{ℤ, pos, negsuc, is_zero}
use monolinux_c_library.Ntp.Time.{ntp_time_to_timespec}
use monolinux_c_library.Ntp.Era.{ntp_time, ntp_time_to_timespec-ntp_time}
use monolinux_c_library.Ntp.Client.{
  Call, getaddrinfo, socket, connect, write, poll, read, clock_settime, close, Answer, Trace, sync,
}
use monolinux_c_library.Ntp.Closed.{IsBalanced, sync-IsBalanced}
use monolinux_c_library.Ntp.Clock.{IsSound, IsDone, sync-IsSound}

ntp_time_to_timespec-ntp_time_example :
    (ntp_time_to_timespec (ntp_time 1600000000 (2 ^ 31))
      ≡ record { tv_sec = pos 1600000000; tv_nsec = 2 ^ 31 * 1000000000 / 2 ^ 32 })
    × (2 ^ 31 * 1000000000 / 2 ^ 32 < 1000000000)
ntp_time_to_timespec-ntp_time_example =
    ntp_time_to_timespec-ntp_time 1600000000 (2 ^ 31) (omega arith) (omega arith)

-- The first second behind the range of the conversion comes out as a time of 1968.
wrapped :
    ntp_time_to_timespec (ntp_time 4233462144 0) ≡ record { tv_sec = negsuc 61505151; tv_nsec = 0 }
unfolding ntp_time_to_timespec
wrapped = refl

abbrev result_of : Call → ℤ
result_of getaddrinfo = pos 0
result_of (socket info) = pos 3
result_of (connect sock info) = pos 0
result_of (write sock buf) = pos 48
result_of (poll sock) = pos 1
result_of (read sock) = pos 48
result_of (clock_settime ts) = pos 0
result_of (close sock) = pos 0

abbrev content_of : Call → List ℕ
content_of getaddrinfo = 7 ∷ []
content_of (read sock) = 36 ∷ (replicate 31 0 ++ (ntp_time 1600000000 (2 ^ 31) ++ replicate 8 0))
content_of _ = []

abbrev answer_2020 : Trace → Call → Answer
answer_2020 tr c = record { res = result_of c; errno = 5; content = content_of c }

sync_2020 : (sync answer_2020 []).1 ≡ pos 0
unfolding sync
sync_2020 = refl

sync-IsBalanced_example : IsBalanced (pos 3) [] (sync answer_2020 []).0
sync-IsBalanced_example = sync-IsBalanced answer_2020 (pos 3) []

sync-IsSound_example :
    IsSound (sync answer_2020 []).0
    × ((is_zero (sync answer_2020 []).1 ≡ false) ⊎ IsDone (sync answer_2020 []).0)
sync-IsSound_example = sync-IsSound answer_2020 [] (λ tr c h. omega arith) tt
