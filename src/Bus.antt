-- ===== src/Bus.antt =====
-- The message bus: publish-subscribe over queues, src/ml_bus.c in Registry and Delivery. Theorems
-- on the sorted table are in Table and Lookup, those on a broadcast in Broadcast.
pub mod Registry
pub mod Table
pub mod Lookup
pub mod Delivery
pub mod Broadcast
mod Tests
