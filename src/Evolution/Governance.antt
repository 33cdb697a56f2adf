-- ===== src/Evolution/Governance.antt =====
-- evolution/governance.py: the class by which detection and bulk policy change.
pub mod State
pub mod Methods
pub mod Access
pub mod Lifecycle
pub mod Invariant
pub mod Appending
pub mod Events
pub mod Activation
pub mod Release
pub mod Preserved
pub mod Runs
mod Samples
mod Witnesses
