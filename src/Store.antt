-- ===== src/Store.antt =====
-- internal/store: the SQLite store, its tables, and the operations on them.
pub mod Schema
pub mod Exec
pub mod Keeps
pub mod Accounts
pub mod Wallets
pub mod Addresses
pub mod Assigned
pub mod Deposits
pub mod DepositQueries
pub mod Withdrawals
pub mod Ledger
