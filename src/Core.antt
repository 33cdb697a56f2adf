-- ===== src/Core.antt =====
-- core/: principals and roles, and the error hierarchy.
pub mod Errors
pub mod Security
