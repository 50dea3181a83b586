-- ===== src/Store.antt =====
-- engine/infrastructure/store.py: the SQLite ledger, one module for each table.
pub mod Tables
pub mod Transaction
pub mod Orders
pub mod Fills
pub mod Positions
pub mod Recon
pub mod Outbox
pub mod Leases
pub mod Kv
