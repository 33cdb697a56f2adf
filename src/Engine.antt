-- ===== src/Engine.antt =====
-- src/asas/engine: what is decided deterministically, from the data and the tools' outputs alone.
pub mod Hypotheses
pub mod Classification
pub mod Decisions
pub mod Cohorts
pub mod Linking
pub mod Rules
pub mod Graph
