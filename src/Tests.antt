-- ===== src/Tests.antt =====
-- The theorems at concrete inputs, and tests.
mod Loop
mod Codec
mod Buffer
mod Transport
mod LoadBalancer
mod Client
mod Core
mod Calls
mod Registry
mod Server
mod ThreadPool
mod Clients
mod Calculator
mod LifeCycle
mod Serializer
mod ZooKeeperServer
mod ZooKeeper
