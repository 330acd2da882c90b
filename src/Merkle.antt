-- ===== src/Merkle.antt =====
-- src/merkle: the persistent Merkle tree of the commitments, its proofs and its root index.
pub mod Zeros
pub mod Nodes
pub mod Tree
pub mod Insert
pub mod Represents
pub mod Writes
pub mod Persistent
pub mod Subtree
pub mod Proof
pub mod Ingest
pub mod Hydration
pub mod Requests
pub mod Inputs
mod Tests
