-- ===== src/Memory.antt =====
-- ai-provider/internal/inference/memory.go. The memory manager: its state, its methods, the balance
-- of its pools and the limit that it keeps.
pub mod State
pub mod Methods
pub mod Balance
pub mod Size
pub mod Limit
pub mod History
mod Tests
