-- ===== src/Updates.antt =====
-- ai-provider/internal/ha/updates.go. Updates of the nodes of a cluster to a new version. The nodes are
-- those of the failover manager: both managers point to the same ones, which stand in one map, the heap.
pub mod State
pub mod Methods
pub mod Touched
pub mod Rollback
pub mod Batches
pub mod Outcome
pub mod Failover
mod Tests
