-- ===== src/ScTable.antt =====
-- libsuc/SCTable: the table of saturating counters of the branch predictors.
pub mod Counters
pub mod Range
pub mod Learning
mod Tests
