-- ===== src/Acl.antt =====
-- ai-provider/internal/authz/acl.go. The access lists of resources, and the decision about an access.
pub mod State
pub mod Access
pub mod Methods
pub mod Order
pub mod Decision
pub mod Answers
pub mod Unique
pub mod Changes
mod Tests
