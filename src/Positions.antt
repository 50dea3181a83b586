-- ===== src/Positions.antt =====
-- engine/application/position_service.py
pub mod Accounting
pub mod Invariant
pub mod Replay
pub mod Service
