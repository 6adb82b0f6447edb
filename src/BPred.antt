-- ===== src/BPred.antt =====
-- libcore/BPred: the branch predictors of a processor.
pub mod Types
pub mod Ras
pub mod Btb
pub mod TwoLevel
pub mod Tournament
pub mod Skew
pub mod Yags
pub mod Predictor
pub mod Nested
pub mod Target
pub mod Total
pub mod Lookup
pub mod Pure
pub mod Learn
mod Tests
