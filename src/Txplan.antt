-- ===== src/Txplan.antt =====
-- internal/txplan and internal/chain: the plans of the transactions that spend the wallet's notes.
pub mod Outcome
pub mod Notes
pub mod Select
pub mod Greedy
pub mod Chunks
pub mod Split
pub mod Borrow
pub mod Services
pub mod Actions
pub mod Prepare
pub mod Build
pub mod Plan
pub mod Sums
pub mod Sweep
pub mod Send
pub mod Pays
