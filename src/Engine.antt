-- ===== src/Engine.antt =====
-- The engine's services: configuration, messages, executors, orders, stream, reconciliation.
pub mod Config
pub mod Messages
pub mod Executor
pub mod Ids
pub mod Paper
pub mod Orders
pub mod Stream
pub mod Dispatch
pub mod Recon
pub mod Normalizer
pub mod Binance
pub mod Validation
pub mod Keeps
pub mod Risk
pub mod Strategy
pub mod MarketData
pub mod Trading
pub mod ControlPlane
pub mod Worker
pub mod Process
pub mod System
