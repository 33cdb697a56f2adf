-- ===== src/Store.antt =====
-- store/: the append-only tables, the audit chain and its external anchors.
pub mod Artifacts
pub mod Audit
pub mod Anchor
pub mod Session
mod Witnesses
