-- ===== src/Memory/Methods.antt =====
-- The methods of the memory manager. The IDs that `generateID` draws and the times are arguments.
use net_llm.Prelude.{
  ℕ, ◌+◌, String, Bool, true, false, not, ◌&&◌, Option, none, some, List, [], ◌∷◌, ◌++◌,
  if◌then◌else◌, length, select, str_eq,
}
use net_llm.Prelude.Int.{ℤ, pos, ◌+ℤ◌, ◌-ℤ◌, ltb_ℤ, leb_ℤ, eqb_ℤ}
use net_llm.Prelude.Dict.{Dict, lookup, insert, adjust, delete}
use net_llm.Memory.State.{
  MemoryBlock, MemoryPool, MemoryAllocation, MemoryManager, Error, insufficient_memory, not_found,
  already_exists, has_blocks_in_use, Result, ok, err,
}

abbrev pub first_block : MemoryBlock → Option (List MemoryBlock × ℤ) → Option (List MemoryBlock × ℤ)
first_block b none = none
first_block b (some (bs, size)) = some (b ∷ bs, size)

-- The search of `findOrCreateBlock`, and what `allocateFromPool` writes to the block that it finds.
unfoldable pub claim_block : ℤ → ℕ → List MemoryBlock → Option (List MemoryBlock × ℤ)
claim_block size now [] = none
claim_block size now (b ∷ bs) =
    let rest = claim_block size now bs in
    if not b.in_use && leb_ℤ size b.size
    then some (record b { in_use = true; allocated_at = now } ∷ bs, b.size)
    else first_block b rest

unfoldable pub or_create :
    MemoryPool → ℤ → String → ℕ → Option (List MemoryBlock × ℤ) → Option (List MemoryBlock × ℤ)
or_create pool size id now (some found) = some found
or_create pool size id now none =
    if leb_ℤ size pool.available
    then some (
      pool.blocks ++ (record { id = id; size = size; in_use = true; allocated_at = now } ∷ []),
      size,
    )
    else none

unfoldable pub find_or_create_block : MemoryPool → ℤ → String → ℕ → Option (List MemoryBlock × ℤ)
unfolding claim_block or_create
find_or_create_block pool size id now =
    or_create pool size id now (claim_block size now pool.blocks)

abbrev pub draw : MemoryPool → List MemoryBlock × ℤ → MemoryPool × ℤ
draw pool (blocks, size) = (
  record pool { blocks = blocks; used = pool.used +ℤ size; available = pool.available -ℤ size },
  size,
)

abbrev pub draw_found : MemoryPool → Option (List MemoryBlock × ℤ) → Option (MemoryPool × ℤ)
draw_found pool none = none
draw_found pool (some found) = some (draw pool found)

-- What the loop does with one pool.
unfoldable pub take_from : MemoryPool → ℤ → String → ℕ → Option (MemoryPool × ℤ)
unfolding find_or_create_block
take_from pool size id now =
    if leb_ℤ size pool.available
    then draw_found pool (find_or_create_block pool size id now)
    else none

abbrev Drawn : Type 0
Drawn = Dict MemoryPool × String × ℤ

abbrev pub drawn_here :
    String → MemoryPool → Dict MemoryPool → Option (MemoryPool × ℤ) → Option Drawn → Option Drawn
drawn_here k pool pools (some (pool', size)) rest = some ((k, pool') ∷ pools, pool.id, size)
drawn_here k pool pools none none = none
drawn_here k pool pools none (some (pools', id, size)) = some ((k, pool) ∷ pools', id, size)

-- The loop of `allocateFromPool` over the pools: the pools, the ID of the pool and the block's size.
unfoldable pub draw_from : Dict MemoryPool → ℤ → String → ℕ → Option Drawn
unfolding take_from
draw_from [] size id now = none
draw_from ((k, pool) ∷ pools) size id now =
    drawn_here k pool pools (take_from pool size id now) (draw_from pools size id now)

-- `releaseToPool`, on the blocks: the first block in use of that size.
unfoldable pub free_block : ℤ → List MemoryBlock → List MemoryBlock × Bool
free_block size [] = ([], false)
free_block size (b ∷ bs) =
    let rest = free_block size bs in
    if b.in_use && eqb_ℤ b.size size
    then (record b { in_use = false } ∷ bs, true)
    else (b ∷ rest.0, rest.1)

unfoldable pub give_back : ℤ → MemoryPool → MemoryPool
unfolding free_block
give_back size pool =
    let (blocks, freed) = free_block size pool.blocks in
    if freed
    then record pool {
      blocks = blocks;
      used = pool.used -ℤ size;
      available = pool.available +ℤ size;
    }
    else pool

unfoldable pub release_to_pool : MemoryAllocation → Dict MemoryPool → Dict MemoryPool
unfolding give_back
release_to_pool a pools = adjust a.pool_id (give_back a.size) pools

unfoldable pub defragment_pool : MemoryPool → MemoryPool
defragment_pool pool = record pool {
  blocks = select (λ b. b.in_use) pool.blocks;
  available = pool.size -ℤ pool.used;
}

abbrev pub defragment_each : Dict MemoryPool → Dict MemoryPool
defragment_each [] = []
defragment_each ((k, pool) ∷ pools) = (k, defragment_pool pool) ∷ defragment_each pools

abbrev pub any_in_use : List MemoryBlock → Bool
any_in_use [] = false
any_in_use (b ∷ bs) = let rest = any_in_use bs in if b.in_use then true else rest

abbrev pub new_pool : String → ℤ → ℕ → MemoryPool
new_pool id size now = record {
  id = id;
  size = size;
  used = pos 0;
  available = size;
  blocks = [];
  created_at = now;
}

-- `scale total share` is `int64(float64(total) * share)`.
module _ {Share : Type 0} (scale : ℤ → Share → ℤ) where
  unfoldable pub get_available_memory : MemoryManager Share → ℤ
  get_available_memory m =
      let available =
        scale m.total_memory m.config.max_memory_usage -ℤ m.used_memory -ℤ m.reserved_memory in
      if ltb_ℤ available (pos 0) then pos 0 else available

  unfoldable pub update_stats : ℕ → MemoryManager Share → MemoryManager Share
  unfolding get_available_memory
  update_stats now m = record m {
    stats = record m.stats {
      used_memory = m.used_memory;
      free_memory = m.total_memory -ℤ m.used_memory;
      available_memory = get_available_memory m;
      peak_usage =
          if ltb_ℤ m.stats.peak_usage m.used_memory then m.used_memory else m.stats.peak_usage;
      active_allocations = length m.allocations;
      total_allocations = m.stats.total_allocations + 1;
      updated_at = now;
    };
  }

  -- The pools after the allocation, and the allocation: from a pool, or else direct.
  unfoldable pub allocation_of :
      MemoryManager Share
      → String
      → ℤ
      → String
      → ℕ
      → Option Drawn
      → Dict MemoryPool × MemoryAllocation
  allocation_of m instance_id size id now (some (pools, pool_id, block_size)) = (
    pools,
    record {
      id = id;
      instance_id = instance_id;
      size = block_size;
      pool_id = pool_id;
      allocated_at = now;
    },
  )
  allocation_of m instance_id size id now none = (
    m.memory_pools,
    record { id = id; instance_id = instance_id; size = size; pool_id = ""; allocated_at = now },
  )

  -- `Allocate`, with the IDs of the allocation and of a new block.
  unfoldable pub allocate :
      MemoryManager Share
      → String
      → ℤ
      → String
      → String
      → ℕ
      → MemoryManager Share × Result MemoryAllocation
  unfolding draw_from allocation_of
  allocate m instance_id size id block_id now =
      let available = get_available_memory m in
      let drawn =
        if m.config.enable_pooling then draw_from m.memory_pools size block_id now else none in
      let (pools, allocation) = allocation_of m instance_id size id now drawn in
      if ltb_ℤ available size then (m, err (insufficient_memory size available)) else (
        update_stats now (record m {
          memory_pools = pools;
          allocations = insert id allocation m.allocations;
          used_memory = m.used_memory +ℤ size;
        }),
        ok allocation,
      )

  unfoldable pub release_found :
      MemoryManager Share
      → String
      → ℕ
      → Option MemoryAllocation
      → MemoryManager Share × Option Error
  unfolding release_to_pool
  release_found m id now none = (m, some (not_found id))
  release_found m id now (some a) = (
    update_stats now (record m {
      memory_pools =
          if str_eq a.pool_id "" then m.memory_pools else release_to_pool a m.memory_pools;
      used_memory = m.used_memory -ℤ a.size;
      allocations = delete id m.allocations;
      stats = record m.stats { total_frees = m.stats.total_frees + 1 };
    }),
    none,
  )

  unfoldable pub release : MemoryManager Share → String → ℕ → MemoryManager Share × Option Error
  unfolding release_found
  release m id now = release_found m id now (lookup id m.allocations)

  unfoldable pub create_found :
      MemoryManager Share
      → String
      → ℤ
      → ℕ
      → Option MemoryPool
      → MemoryManager Share × Result MemoryPool
  create_found m id size now (some _) = (m, err (already_exists id))
  create_found m id size now none =
      let available = get_available_memory m in
      let pool = new_pool id size now in
      if ltb_ℤ available size then (m, err (insufficient_memory size available)) else (
        update_stats now (record m {
          memory_pools = insert id pool m.memory_pools;
          used_memory = m.used_memory +ℤ size;
          stats = record m.stats { pool_count = m.stats.pool_count +ℤ pos 1 };
        }),
        ok pool,
      )

  unfoldable pub create_pool :
      MemoryManager Share → String → ℤ → ℕ → MemoryManager Share × Result MemoryPool
  unfolding create_found
  create_pool m id size now = create_found m id size now (lookup id m.memory_pools)

  unfoldable pub destroy_found :
      MemoryManager Share → String → ℕ → Option MemoryPool → MemoryManager Share × Option Error
  destroy_found m id now none = (m, some (not_found id))
  destroy_found m id now (some pool) =
      if any_in_use pool.blocks then (m, some (has_blocks_in_use id)) else (
        update_stats now (record m {
          used_memory = m.used_memory -ℤ pool.size;
          memory_pools = delete id m.memory_pools;
          stats = record m.stats { pool_count = m.stats.pool_count -ℤ pos 1 };
        }),
        none,
      )

  unfoldable pub destroy_pool :
      MemoryManager Share → String → ℕ → MemoryManager Share × Option Error
  unfolding destroy_found
  destroy_pool m id now = destroy_found m id now (lookup id m.memory_pools)

  unfoldable pub reserve_memory : MemoryManager Share → ℤ → ℕ → MemoryManager Share × Option Error
  reserve_memory m size now =
      let available = get_available_memory m in
      if ltb_ℤ available size
      then (m, some (insufficient_memory size available))
      else (update_stats now (record m { reserved_memory = m.reserved_memory +ℤ size }), none)

  unfoldable pub release_memory : MemoryManager Share → ℤ → ℕ → MemoryManager Share
  release_memory m size now =
      let reserved = m.reserved_memory -ℤ size in
      update_stats now
        (record m { reserved_memory = if ltb_ℤ reserved (pos 0) then pos 0 else reserved })

  unfoldable pub optimize : MemoryManager Share → ℕ → MemoryManager Share
  unfolding defragment_pool
  optimize m now = update_stats now (record m { memory_pools = defragment_each m.memory_pools })

-- `GetInstanceMemory`.
unfoldable pub instance_memory : String → List MemoryAllocation → ℤ
instance_memory id [] = pos 0
instance_memory id (a ∷ rest_of) =
    let rest = instance_memory id rest_of in
    if str_eq a.instance_id id then a.size +ℤ rest else rest
