-- ===== src/Sync.antt =====
-- src/sync: the engine that follows the entry service.
pub mod Options
pub mod Retries
pub mod Memos
pub mod State
pub mod Pages
pub mod Applied
pub mod Log
pub mod Marked
pub mod Follows
pub mod Engine
pub mod Told
pub mod Polling
mod Tests
