-- ===== src/Network.antt =====
-- The network interfaces and packet filters of src/ml_network.c.
pub mod System
pub mod Interface
pub mod Link
pub mod Commands
pub mod Replace
pub mod Filter
pub mod Log
pub mod Balance
pub mod Configured
pub mod Flags
pub mod Kept
pub mod Placed
pub mod Walks
pub mod Logged
pub mod Init
pub mod Typed
pub mod Closed
pub mod Freed
mod Tests
