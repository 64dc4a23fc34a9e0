-- ===== src/HealthChecker.antt =====
-- The health checker service (health-checker/src/health-checker).
pub mod Jobs
pub mod Pool
pub mod Hive
pub mod Service
mod Sample
mod Tests
pub mod Results
