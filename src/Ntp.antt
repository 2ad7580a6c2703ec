-- ===== src/Ntp.antt =====
-- The NTP client, src/ml_ntp_client.c: the conversion of times in Time, and Era for its range, the
-- exchange with the servers in Client, what it closes in Closed, and what it sets in Clock.
pub mod Time
pub mod Era
pub mod Client
pub mod Closed
pub mod Clock
mod Tests
