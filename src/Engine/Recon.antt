-- ===== src/Engine/Recon.antt =====
-- engine/application/reconciliation_service.py
pub mod Checks
pub mod Service
pub mod Verdict
pub mod Halt
