-- ===== src/OneWire.antt =====
-- The DS18B20 sensor on the 1-wire bus, src/ml_one_wire.c: the states of a reading in Sensor, the
-- messages of the kernel in Messages, the count of
-- responses in Answers, Walks and Life, and two ways to fail in Stale.
pub mod Sensor
pub mod Messages
pub mod Answers
pub mod Walks
pub mod Life
pub mod Stale
mod Tests
