-- ===== src/Runtime.antt =====
-- The runtime library that all services share (runtime/).
pub mod Helpers
pub mod Types
pub mod Interfaces
pub mod Numbers
pub mod Redis
pub mod Queue
pub mod Cache
pub mod Mock
pub mod Sample
