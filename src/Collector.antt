-- ===== src/Collector.antt =====
-- The collector service (collector/src/collector).
pub mod Keys
pub mod Accounts
pub mod Service
mod Tests
