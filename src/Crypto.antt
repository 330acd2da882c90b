-- ===== src/Crypto.antt =====
-- src/crypto: the Poseidon2 hash and what the SDK builds on it.
pub mod Keys
pub mod Poseidon2
pub mod Records
pub mod Openings
pub mod Nullifiers
pub mod Modular
pub mod FixedBytes
pub mod BabyJubJub
mod Tests
