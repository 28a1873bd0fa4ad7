-- ===== src/Congress.antt =====
-- The congress crate: leader election among the ingress pods, and the network it runs on.
pub mod Types
pub mod Senator
pub mod Task
pub mod Follower
pub mod Candidate
pub mod Leader
pub mod Run
pub mod Cuts
pub mod Waiting
pub mod Cluster
pub mod Election
pub mod Listeners
pub mod Peer
pub mod Network
mod Tests
