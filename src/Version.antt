-- ===== src/Version.antt =====
-- ai-provider/internal/models/version.go. Semantic versions, and the versions of a model.
pub mod Semantic
pub mod Parse
pub mod Digits
pub mod RoundTrip
pub mod Reading
pub mod Order
pub mod Manager
pub mod Latest
pub mod Blocked
pub mod Compared
pub mod Greatest
pub mod Active
pub mod Path
pub mod Rounds
pub mod Upgrade
pub mod Advice
mod Tests
