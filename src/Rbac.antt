-- ===== src/Rbac.antt =====
-- ai-provider/internal/authz/rbac.go. Roles that inherit permissions from their parents, and the
-- decisions that are taken by them.
pub mod State
pub mod Inheritance
pub mod Permissions
pub mod Manager
pub mod Acyclic
pub mod Writes
pub mod Answers
pub mod Revoked
pub mod Collected
pub mod Decision
pub mod Ancestors
pub mod Search
pub mod HasRole
mod Tests
