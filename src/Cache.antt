-- ===== src/Cache.antt =====
-- ai-provider/internal/inference/cache.go. The cache of inference results: its state, the sorts by
-- which it chooses what to evict, and its methods.
pub mod State
pub mod Sorting
pub mod Methods
pub mod Order
pub mod Eviction
pub mod Capacity
pub mod Accounting
pub mod History
mod Tests
