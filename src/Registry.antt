-- ===== src/Registry.antt =====
-- src/registry: service instances, their text form, and the registry over ZooKeeper.
pub mod Instance
pub mod Factory
pub mod Storage
pub mod ZooKeeper
