-- ===== src/Programs.antt =====
-- The programs: the main functions of manager/src, collector/src and health-checker/src.
pub mod Objects
pub mod Manager
pub mod Services
