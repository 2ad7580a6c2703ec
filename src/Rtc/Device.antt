-- ===== src/Rtc/Device.antt =====
-- ml_rtc_get_time and ml_rtc_set_time of src/ml_rtc.c. The kernel is a parameter that answers each call
-- from the calls made so far.
use monolinux_c_library.Prelude.{List, ◌∷◌, if◌then◌else◌}
use monolinux_c_library.Prelude.Int.{ℤ, negsuc, is_zero, is_failed}
use monolinux_c_library.Prelude.Text.{Text}

-- The members that `struct tm` and `struct rtc_time` share.
pub record Time : Type 0 where
  pub sec : ℤ
  pub min : ℤ
  pub hour : ℤ
  pub mday : ℤ
  pub wday : ℤ
  pub mon : ℤ
  pub year : ℤ
  pub yday : ℤ
  pub isdst : ℤ

pub data Call : Type 0 where
  open_read : Text → Call
  open_write : Text → Call
  rtc_rd_time : ℤ → Call
  rtc_set_time : ℤ → Time → Call
  close : ℤ → Call

-- The result, and the time that was read.
pub record Answer : Type 0 where
  pub res : ℤ
  pub time : Time

abbrev pub Trace : Type 0
Trace = List (Call × Answer)

-- The assignments, member by member.
unfoldable pub copy_time : Time → Time
copy_time t = record {
  sec = t.sec;
  min = t.min;
  hour = t.hour;
  mday = t.mday;
  wday = t.wday;
  mon = t.mon;
  year = t.year;
  yday = t.yday;
  isdst = t.isdst;
}

module _ (answer : Trace → Call → Answer) where
  unfoldable pub call : Call → Trace → Trace
  call c tr = (c, answer tr c) ∷ tr

  -- `tm` is what the argument held before.
  unfoldable pub get_time : Text → Time → Trace → Trace × Time × ℤ
  unfolding call copy_time
  get_time device tm tr =
      let opened = answer tr (open_read device) in
      let tr1 = call (open_read device) tr in
      let got = answer tr1 (rtc_rd_time opened.res) in
      let tr2 = call (rtc_rd_time opened.res) tr1 in
      if is_failed opened.res then (tr1, tm, negsuc 0) else (
        call (close opened.res) tr2,
        if is_zero got.res then copy_time got.time else tm,
        got.res,
      )

  unfoldable pub set_time : Text → Time → Trace → Trace × ℤ
  unfolding call copy_time
  set_time device tm tr =
      let opened = answer tr (open_write device) in
      let tr1 = call (open_write device) tr in
      let c = rtc_set_time opened.res (copy_time tm) in
      if is_failed opened.res
      then (tr1, negsuc 0)
      else (call (close opened.res) (call c tr1), (answer tr1 c).res)
