-- ===== src/Smp.antt =====
-- libsmp: the MESI caches on a snooping bus, seen at one memory line.
pub mod State
pub mod Request
pub mod Protocol
pub mod System
pub mod Local
pub mod Handlers
pub mod Count
pub mod Invariant
pub mod Preserve
pub mod Transact
pub mod Answer
pub mod Snooped
pub mod Returned
pub mod Coherence
mod Tests
