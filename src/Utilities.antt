-- ===== src/Utilities.antt =====
-- Functions of src/ml.c: Strip, with Stripped on what is taken, Dd, with Copied, Hexdump, with Dumps
-- and Chunks, and Cpu, with Loads.
pub mod Strip
pub mod Stripped
pub mod Dd
pub mod Copied
pub mod Hexdump
pub mod Dumps
pub mod Chunks
pub mod Cpu
pub mod Loads
mod Tests
