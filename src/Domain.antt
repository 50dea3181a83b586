-- ===== src/Domain.antt =====
-- engine/domain: enumerations, the normalized exchange objects, orders, positions, reconciliation
-- state.
pub mod Enums
pub mod Events
pub mod Order
pub mod Position
pub mod Recon
pub mod Rules
