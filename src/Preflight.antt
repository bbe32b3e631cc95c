-- ===== src/Preflight.antt =====
-- src/oms_gateway/preflight.py: the pre-trade checks, one module for each group, and `evaluate`,
-- which runs them in order. `Gates` and the modules after it hold the proofs.
pub mod Decision
pub mod Cluster
pub mod Checks
pub mod Exposure
pub mod Budget
pub mod Evaluate
pub mod CapsCsv
pub mod Gates
pub mod Refusal
pub mod Conditions
pub mod BudgetCondition
pub mod Admission
