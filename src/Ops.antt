-- ===== src/Ops.antt =====
-- src/ops: what goes from a plan to the contract.
pub mod RootIndex
mod Tests
