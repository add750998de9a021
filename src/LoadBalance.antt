-- ===== src/LoadBalance.antt =====
-- ai-provider/internal/ha/loadbalance.go. The backends, and how one of them is chosen.
pub mod State
pub mod Choice
pub mod Methods
pub mod Chosen
pub mod Selection
pub mod Least
pub mod Rotation
mod Tests
