-- ===== src/Tests.antt =====
-- The data on which the theorems and the operations are run.
pub mod Fixtures
pub mod Keys
pub mod Stores
mod Paths
mod Trees
mod Tables
pub mod Contracts
mod Started
pub mod Deposits
mod Lifecycle
mod Wallets
mod Served
mod Accounts
