-- ===== src/Memory/State.antt =====
-- The structs of the memory manager. A share of the memory (a float64) is of the type `Share`.
use net_llm.Prelude.{ℕ, String, Bool, List}
use net_llm.Prelude.Int.{ℤ}
use net_llm.Prelude.Dict.{Dict}

pub record MemoryBlock : Type 0 where
  pub id : String
  pub size : ℤ
  pub in_use : Bool
  pub allocated_at : ℕ

pub record MemoryPool : Type 0 where
  pub id : String
  pub size : ℤ
  pub used : ℤ
  pub available : ℤ
  pub blocks : List MemoryBlock
  pub created_at : ℕ

-- An empty pool ID stands for memory that is not from a pool.
pub record MemoryAllocation : Type 0 where
  pub id : String
  pub instance_id : String
  pub size : ℤ
  pub pool_id : String
  pub allocated_at : ℕ

pub record MemoryConfig (Share : Type 0) : Type 0 where
  pub max_memory_usage : Share
  pub enable_pooling : Bool

pub record MemoryStats : Type 0 where
  pub used_memory : ℤ
  pub free_memory : ℤ
  pub available_memory : ℤ
  pub pool_count : ℤ
  pub active_allocations : ℕ
  pub total_allocations : ℕ
  pub total_frees : ℕ
  pub peak_usage : ℤ
  pub updated_at : ℕ

pub record MemoryManager (Share : Type 0) : Type 0 where
  pub total_memory : ℤ
  pub used_memory : ℤ
  pub reserved_memory : ℤ
  pub memory_pools : Dict MemoryPool
  pub allocations : Dict MemoryAllocation
  pub config : MemoryConfig Share
  pub stats : MemoryStats

pub data Error : Type 0 where
  insufficient_memory : ℤ → ℤ → Error
  not_found : String → Error
  already_exists : String → Error
  has_blocks_in_use : String → Error

pub data Result {ℓ} (A : Type ℓ) : Type ℓ where
  ok : A → Result A
  err : Error → Result A
