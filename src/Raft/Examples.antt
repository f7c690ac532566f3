-- ===== src/Raft/Examples.antt =====
-- Peers and messages on which the theorems of the Raft layer are tried.
pub mod Disk
pub mod Peers
mod Votes
mod Clusters
mod Rounds
mod Service
mod Starts
mod Terms
mod Links
