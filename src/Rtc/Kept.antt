-- ===== src/Rtc/Kept.antt =====
-- A time that ml_rtc_set_time of src/ml_rtc.c sets is read back by ml_rtc_get_time.
use monolinux_c_library.Prelude.{◌≡◌, [], ◌∷◌, Option, none, some, if◌then◌else◌, arith}
use monolinux_c_library.Prelude.Int.{ℤ, pos, is_zero}
use monolinux_c_library.Prelude.Text.{Text}
use monolinux_c_library.Rtc.Device.{
  Time, Call, open_read, rtc_rd_time, rtc_set_time, Answer, Trace, copy_time, call, get_time,
  set_time,
}

-- The time of the clock after a call, for a clock that does not run.
abbrev pub time_after : Call → Answer → Option Time → Option Time
time_after (rtc_set_time fd t) a old = if is_zero a.res then some t else old
time_after _ a old = old

unfoldable pub time_of : Trace → Option Time
time_of [] = none
time_of ((c, a) ∷ tr) = time_after c a (time_of tr)

module _ (answer : Trace → Call → Answer) where
  set_time-time_of :
      (device : Text) (tm : Time) (tr : Trace)
      → (set_time answer device tm tr).1 ≡ pos 0
      → time_of (set_time answer device tm tr).0 ≡ some tm
  unfolding set_time call copy_time time_of
  set_time-time_of device tm tr h = ground arith

  -- On a kernel that keeps the time it is given: after ml_rtc_set_time with the result 0,
  -- ml_rtc_get_time with the result 0 gives the time that was set.
  pub set_time-get_time :
      (device : Text) (tm old : Time) (tr : Trace)
      → ((tr' : Trace) (fd : ℤ) (t : Time)
          → time_of tr' ≡ some t
          → (answer tr' (rtc_rd_time fd)).time ≡ t)
      → (set_time answer device tm tr).1 ≡ pos 0
      → (get_time answer device old (set_time answer device tm tr).0).2 ≡ pos 0
      → (get_time answer device old (set_time answer device tm tr).0).1 ≡ tm
  unfolding get_time call copy_time time_of
  set_time-get_time device tm old tr k hs hg =
      let tr' = (set_time answer device tm tr).0 in
      let opened = answer tr' (open_read device) in
      ground (
        arith,
        k (call answer (open_read device) tr') opened.res tm (set_time-time_of device tm tr hs),
      )
