-- ===== src/Tests.antt =====
-- Runs of the model on concrete inputs, with the float types of Float/Fixed and Float/Exact.
pub mod Data
pub mod Numbers
pub mod Decisions
pub mod Sizes
pub mod Tiers
pub mod Multipliers
pub mod Reservations
pub mod Allocations
pub mod Rounds
pub mod Loops
pub mod Exposition
pub mod Refreshes
pub mod KellyCycles
pub mod Losses
pub mod Backfills
pub mod Wiring
pub mod Clusters
