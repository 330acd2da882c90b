-- ===== src/Store.antt =====
-- The stores: queries over stored rows and the persisted wallet state (src/store/internal), and the
-- in-memory store.
pub mod Query
pub mod Operations
pub mod Memory
pub mod Persisted
mod Tests
