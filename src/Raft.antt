-- ===== src/Raft.antt =====
-- The Raft layer (src/raft).
pub mod Types
pub mod Persister
pub mod Codec
pub mod Slice
pub mod Node
pub mod Log
pub mod Apply
pub mod Handler
pub mod Sending
pub mod Candidate
pub mod Leader
pub mod Replicate
pub mod Indexed
pub mod Invariant
pub mod Cluster
pub mod Election
pub mod Durable
pub mod Trace
pub mod Examples
