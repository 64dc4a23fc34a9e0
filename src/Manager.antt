-- ===== src/Manager.antt =====
-- The manager service (manager/src).
pub mod Interfaces
pub mod Pages
pub mod Block
pub mod Metrics
pub mod Receiver
pub mod Monitor
pub mod Run
pub mod Sample
