-- ===== src/DeviceMapper.antt =====
-- The device mapper, src/ml_device_mapper.c: the calls in System, ml_device_mapper_verity_create in
-- Verity, the order of its steps in Steps, and the table that it loads in Table.
pub mod System
pub mod Verity
pub mod Steps
pub mod Table
mod Tests
