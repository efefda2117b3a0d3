-- ===== src/Round.antt =====
-- keeper/round: the payout rounds.
pub mod Types
pub mod Median
pub mod Holders
pub mod Remainder
pub mod Asset
pub mod Allocate
pub mod Trigger
pub mod Likely
pub mod Trees
pub mod Policy
mod Tests
