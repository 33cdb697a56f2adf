-- ===== src/Evolution.antt =====
-- evolution/: governance of the detection rules and of the bulk policy.
pub mod Governance
pub mod Replay
pub mod Shadow
pub mod Bulk
