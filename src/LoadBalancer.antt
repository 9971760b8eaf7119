-- ===== src/LoadBalancer.antt =====
-- internal/loadbalancer: backends and their store, the algorithms, the load balancer itself.
pub mod Types
pub mod Algorithms
pub mod Balancer
pub mod Report
pub mod Loop
