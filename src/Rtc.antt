-- ===== src/Rtc.antt =====
-- The real-time clock, src/ml_rtc.c: the two functions in Device, and what is read back in Kept.
pub mod Device
pub mod Kept
