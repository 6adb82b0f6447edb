-- ===== src/FastQueue.antt =====
-- libsuc/FastQueue.h: the ring buffer of the simulator's queues.
pub mod Ring
pub mod Create
pub mod Refine
mod Tests
