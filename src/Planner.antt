-- ===== src/Planner.antt =====
-- src/planner/planner.ts: coin selection, fee estimation and plan generation.
pub mod Select
pub mod Fees
pub mod Services
pub mod Plan
pub mod Generate
pub mod Estimate
pub mod Conservation
pub mod Promises
pub mod Refusal
mod Tests
