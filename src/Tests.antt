-- ===== src/Tests.antt =====
-- The theorems of the library at concrete inputs.
pub mod Ledger
pub mod Planning
pub mod Syncing
pub mod Addresses
pub mod Commands
pub mod Sending
pub mod Preparing
pub mod Totals
pub mod Background
