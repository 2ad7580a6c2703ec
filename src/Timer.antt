-- ===== src/Timer.antt =====
-- Software timers, src/ml_timer.c: the delta list in Deltas, the handler in Handler. Theorems on the
-- list are in Remaining, on a tick in Tick, on stopping in Stop.
pub mod Deltas
pub mod Remaining
pub mod Handler
pub mod Tick
pub mod Stop
mod Tests
