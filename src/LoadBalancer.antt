-- ===== src/LoadBalancer.antt =====
-- src/load_balancer. A mutex makes each call one step, so a method is a function on the state.
pub mod Healthy
pub mod RoundRobin
pub mod LeastConnection
pub mod Weighted
pub mod ConsistentHash
pub mod Interface
pub mod Factory
