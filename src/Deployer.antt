-- ===== src/Deployer.antt =====
-- The deployers of manager/src/deployer, which start and stop instances of a service.
pub mod Mock
pub mod Docker
pub mod Ecs
