-- ===== src/Cli.antt =====
-- internal/cli: the commands.
pub mod Command
pub mod Config
pub mod Signer
pub mod Args
pub mod Setup
pub mod Quiet
pub mod Seeds
pub mod Init
pub mod Withdraw
pub mod Sweep
pub mod Balances
pub mod ColdToHot
pub mod Juno
pub mod Account
pub mod Daemon
pub mod Sync
