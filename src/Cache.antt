-- ===== src/Cache.antt =====
-- libsuc/CacheCore.h and CacheCore.cpp: the set-associative and direct-mapped caches that every
-- memory structure of the simulator stores its lines in.
pub mod Line
pub mod Geometry
pub mod Order
pub mod Core
pub mod Ways
pub mod Find
pub mod Victim
pub mod Replace
pub mod Sound
pub mod Rotation
pub mod WellFormed
pub mod Fill
pub mod Lookup
pub mod RoundTrip
pub mod Init
pub mod Unlocked
pub mod Payload
mod Tests
