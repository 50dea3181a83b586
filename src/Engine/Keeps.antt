-- ===== src/Engine/Keeps.antt =====
-- What the services keep true of the orders, the fills and the processed events.
pub mod Rules
pub mod Tables
pub mod Services
pub mod Submission
pub mod Reconciliation
pub mod Trading
pub mod Cycle
