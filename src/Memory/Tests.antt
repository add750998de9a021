-- ===== src/Memory/Tests.antt =====
-- Runs of a manager with one pool, and the theorems at them. A share is a number of hundredths.
use mathlib.Core.List.{[]}
use net_llm.Prelude.{ℕ, ◌*◌, ◌/◌, true, Option, none, some, List, ◌∷◌, ◌≡◌, refl}
use net_llm.Prelude.Int.{ℤ, pos, negsuc, ◌+ℤ◌, ◌-ℤ◌}
use net_llm.Prelude.Dict.{lookup}
use net_llm.Memory.State.{MemoryManager, MemoryPool}
use net_llm.Memory.Methods.{
  allocate, reserve_memory, release, create_pool, release_found, create_found, allocation_of,
  draw_from, take_from, find_or_create_block, claim_block, or_create, release_to_pool, give_back,
  free_block, update_stats, get_available_memory,
}
use net_llm.Memory.Balance.{AllBalanced}
use net_llm.Memory.Limit.{Outcome, ReserveOutcome, allocate-Outcome, reserve_memory-Outcome}
use net_llm.Memory.History.{Call, allocates, releases, creates, step, run, run-IsBalanced}

abbrev share : ℤ → ℕ → ℤ
share (pos n) s = pos (n * s / 100)
share (negsuc n) s = pos 0

abbrev manager : MemoryManager ℕ
manager = record {
  total_memory = pos 1000;
  used_memory = pos 0;
  reserved_memory = pos 100;
  memory_pools = [];
  allocations = [];
  config = record { max_memory_usage = 80; enable_pooling = true };
  stats = record {
    used_memory = pos 0;
    free_memory = pos 0;
    available_memory = pos 0;
    pool_count = pos 0;
    active_allocations = 0;
    total_allocations = 0;
    total_frees = 0;
    peak_usage = pos 0;
    updated_at = 0;
  };
}

abbrev calls : List Call
calls =
    creates "p" (pos 100) 0
    ∷ allocates "i" (pos 60) "m1" "b1" 1
    ∷ releases "m1" 2
    ∷ allocates "i" (pos 80) "m2" "b2" 3
    ∷ allocates "i" (pos 10) "m3" "b3" 4
    ∷ []

run-IsBalanced_example : AllBalanced (run share manager calls).memory_pools
run-IsBalanced_example = run-IsBalanced share manager calls tt

allocate-Outcome_example :
    Outcome share manager (pos 60) "m1" (allocate share manager "i" (pos 60) "m1" "b1" 1)
allocate-Outcome_example = allocate-Outcome share manager "i" (pos 60) "m1" "b1" 1

reserve_memory-Outcome_example :
    ReserveOutcome share manager (pos 60) (reserve_memory share manager (pos 60) 1)
reserve_memory-Outcome_example = reserve_memory-Outcome share manager (pos 60) 1

abbrev available_in : Option MemoryPool → ℤ
available_in none = pos 0
available_in (some pool) = pool.available

-- The third allocation takes over the free block of 60, where only 20 were available.
over_committed : available_in (lookup "p" (run share manager calls).memory_pools) ≡ negsuc 39
unfolding run step allocate release create_pool release_found create_found allocation_of draw_from
    take_from find_or_create_block claim_block or_create release_to_pool give_back free_block
    update_stats get_available_memory ◌+ℤ◌ ◌-ℤ◌
over_committed = refl

-- All is released, the pool of 100 is left, and yet 50 are counted as used.
under_counted :
    (run share (run share manager calls) (releases "m2" 5 ∷ releases "m3" 6 ∷ [])).used_memory
    ≡ pos 50
unfolding run step allocate release create_pool release_found create_found allocation_of draw_from
    take_from find_or_create_block claim_block or_create release_to_pool give_back free_block
    update_stats get_available_memory ◌+ℤ◌ ◌-ℤ◌
under_counted = refl
