-- ===== src/Mshr.antt =====
-- libsuc/MSHR: the miss status holding registers of a cache.
pub mod Types
pub mod Full
pub mod Accounts
pub mod Requests
pub mod Releases
pub mod Retires
pub mod Handed
pub mod Drain
pub mod Entry
pub mod Lines
pub mod Single
pub mod Overflow
pub mod Counted
pub mod Joined
pub mod Upkeep
pub mod Finish
pub mod Whole
pub mod Kept
pub mod Banked
pub mod Banks
pub mod Shared
pub mod Passing
pub mod Admission
pub mod Sums
mod Tests
mod SingleTests
mod BankedTests
