-- ===== src/Port.antt =====
-- libsuc/Port: the models of the contention for a resource, and when they grant a slot.
pub mod Ports
pub mod NextSlot
pub mod Capacity
pub mod Lock
mod Tests
