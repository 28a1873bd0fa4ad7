-- ===== src/Ingress.antt =====
-- The drawbridge_ingress crate: certificates and challenges, the leader's duties, routing.
pub mod Error
pub mod Certificates
pub mod Leadership
pub mod Routing
pub mod Proxy
pub mod Tests
pub mod Generator
pub mod Peers
pub mod Cluster
pub mod Connections
