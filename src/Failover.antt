-- ===== src/Failover.antt =====
-- ai-provider/internal/ha/failover.go. The nodes of a cluster, the active one, and failover. A node
-- is known by its ID: the map holds one node for each, and `activeNode` points to one of them. Each
-- method returns the new manager and its error, `none` for nil. The scores of the health checker are
-- an argument, `none` where no checker is set.
pub mod State
pub mod Methods
pub mod Stats
pub mod Calls
pub mod Selection
pub mod Nodes
pub mod Invariant
pub mod Outcomes
mod Tests
