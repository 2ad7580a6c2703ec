-- ===== src/LogObject.antt =====
-- The log objects of src/ml_log_object.c: levels with their names in Level, the list of registered
-- objects in Registry, the file of levels in File, reading back what was stored in RoundTrip, and the
-- lines that are printed in Print and Printed.
pub mod Level
pub mod Registry
pub mod File
pub mod Scan
pub mod RoundTrip
pub mod Robust
pub mod Fuel
pub mod Print
pub mod Printed
mod Tests
