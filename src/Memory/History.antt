-- ===== src/Memory/History.antt =====
-- Histories of calls of the memory manager.
use net_llm.Prelude.{
  ℕ, String, Option, none, some, List, [], ◌∷◌, ◌≡◌, refl, if_cases, All, str_eq, arith,
}
use net_llm.Prelude.Int.{ℤ, pos, ◌+ℤ◌, parts-add, ext_ℤ}
use net_llm.Prelude.Dict.{Dict, lookup, insert, adjust, delete}
use net_llm.Memory.State.{MemoryPool, MemoryAllocation, MemoryManager}
use net_llm.Memory.Methods.{
  new_pool, give_back, release_to_pool, defragment_each, update_stats, allocation_of, allocate,
  release_found, release, create_found, create_pool, destroy_found, destroy_pool, reserve_memory,
  release_memory, optimize,
}
use net_llm.Memory.Balance.{
  IsBalanced, AllBalanced, BalancedDraw, draw_from-IsBalanced, give_back-IsBalanced,
  defragment_pool-IsBalanced,
}

-- A call, with the IDs that it draws and the time at which it is made.
pub data Call : Type 0 where
  allocates : String → ℤ → String → String → ℕ → Call
  releases : String → ℕ → Call
  creates : String → ℤ → ℕ → Call
  destroys : String → ℕ → Call
  reserves : ℤ → ℕ → Call
  releases_reserved : ℤ → ℕ → Call
  optimizes : ℕ → Call

-- Histories of calls, from a manager in any state.
module _ {Share : Type 0} (scale : ℤ → Share → ℤ) where
  unfoldable pub step : MemoryManager Share → Call → MemoryManager Share
  step m (allocates instance_id size id block_id now) =
      (allocate scale m instance_id size id block_id now).0
  step m (releases id now) = (release scale m id now).0
  step m (creates id size now) = (create_pool scale m id size now).0
  step m (destroys id now) = (destroy_pool scale m id now).0
  step m (reserves size now) = (reserve_memory scale m size now).0
  step m (releases_reserved size now) = release_memory scale m size now
  step m (optimizes now) = optimize scale m now

  unfoldable pub run : MemoryManager Share → List Call → MemoryManager Share
  run m [] = m
  run m (x ∷ xs) = run (step m x) xs

module _ (P : MemoryPool → Type 0) where
  abbrev Every : Dict MemoryPool → Type 0
  Every = All (λ entry. P entry.1)

  adjust-Every :
      (k : String) (f : MemoryPool → MemoryPool) (pools : Dict MemoryPool)
      → ((pool : MemoryPool) → P pool → P (f pool))
      → Every pools
      → Every (adjust k f pools)
  adjust-Every k f [] h a = tt
  adjust-Every k f ((j, pool) ∷ pools) h a =
      if_cases Every (str_eq j k) _ _ (λ _. (h pool a.0, a.1))
        (λ _. (a.0, adjust-Every k f pools h a.1))

  insert-Every :
      (k : String) (pool : MemoryPool) (pools : Dict MemoryPool)
      → P pool
      → Every pools
      → Every (insert k pool pools)
  insert-Every k pool [] p a = (p, tt)
  insert-Every k pool ((j, other) ∷ pools) p a =
      if_cases Every (str_eq j k) _ _ (λ _. (p, a.1)) (λ _. (a.0, insert-Every k pool pools p a.1))

  delete-Every : (k : String) (pools : Dict MemoryPool) → Every pools → Every (delete k pools)
  delete-Every k [] a = tt
  delete-Every k ((j, other) ∷ pools) a =
      if_cases Every (str_eq j k) _ _ (λ _. delete-Every k pools a.1)
        (λ _. (a.0, delete-Every k pools a.1))

defragment_each-IsBalanced :
    (pools : Dict MemoryPool) → AllBalanced pools → AllBalanced (defragment_each pools)
defragment_each-IsBalanced [] a = tt
defragment_each-IsBalanced ((k, pool) ∷ pools) a =
    (defragment_pool-IsBalanced pool a.0, defragment_each-IsBalanced pools a.1)

new_pool-IsBalanced : (id : String) (size : ℤ) (now : ℕ) → IsBalanced (new_pool id size now)
new_pool-IsBalanced id size now =
    let whole : pos 0 +ℤ size ≡ size =
      ext_ℤ (pos 0 +ℤ size) size (omega (arith, parts-add (pos 0) size)) in
    record { used = refl; available = whole }

module _ {Share : Type 0} (scale : ℤ → Share → ℤ) where
  allocation_of-IsBalanced :
      (m : MemoryManager Share) (instance_id : String) (size : ℤ) (id : String) (now : ℕ)
      (o : Option (Dict MemoryPool × String × ℤ))
      → AllBalanced m.memory_pools
      → BalancedDraw o
      → AllBalanced (allocation_of scale m instance_id size id now o).0
  unfolding allocation_of
  allocation_of-IsBalanced m instance_id size id now none a h = a
  allocation_of-IsBalanced m instance_id size id now (some (pools, pool_id, block_size)) a h = h

  abbrev Good : {R : Type 0} → MemoryManager Share × R → Type 0
  Good r = AllBalanced r.0.memory_pools

  allocate-IsBalanced :
      (m : MemoryManager Share) (instance_id : String) (size : ℤ) (id block_id : String) (now : ℕ)
      → AllBalanced m.memory_pools
      → Good (allocate scale m instance_id size id block_id now)
  unfolding allocate update_stats
  allocate-IsBalanced m instance_id size id block_id now a =
      if_cases Good _ _ _ (λ _. a)
        (λ _. allocation_of-IsBalanced m instance_id size id now _ a (
          if_cases BalancedDraw m.config.enable_pooling _ none
            (λ _. draw_from-IsBalanced m.memory_pools size block_id now a) (λ _. tt)))

  release_found-IsBalanced :
      (m : MemoryManager Share) (id : String) (now : ℕ) (found : Option MemoryAllocation)
      → AllBalanced m.memory_pools
      → Good (release_found scale m id now found)
  unfolding release_found release_to_pool update_stats
  release_found-IsBalanced m id now none a = a
  release_found-IsBalanced m id now (some x) a =
      if_cases AllBalanced (str_eq x.pool_id "") _ _ (λ _. a)
        (λ _.
          adjust-Every IsBalanced x.pool_id (give_back x.size) m.memory_pools
            (give_back-IsBalanced x.size) a)

  create_found-IsBalanced :
      (m : MemoryManager Share) (id : String) (size : ℤ) (now : ℕ) (found : Option MemoryPool)
      → AllBalanced m.memory_pools
      → Good (create_found scale m id size now found)
  unfolding create_found update_stats
  create_found-IsBalanced m id size now (some x) a = a
  create_found-IsBalanced m id size now none a =
      if_cases Good _ _ _ (λ _. a)
        (λ _.
          insert-Every IsBalanced id (new_pool id size now) m.memory_pools
            (new_pool-IsBalanced id size now) a)

  destroy_found-IsBalanced :
      (m : MemoryManager Share) (id : String) (now : ℕ) (found : Option MemoryPool)
      → AllBalanced m.memory_pools
      → Good (destroy_found scale m id now found)
  unfolding destroy_found update_stats
  destroy_found-IsBalanced m id now none a = a
  destroy_found-IsBalanced m id now (some x) a =
      if_cases Good _ _ _ (λ _. a) (λ _. delete-Every IsBalanced id m.memory_pools a)

  step-IsBalanced :
      (m : MemoryManager Share) (x : Call)
      → AllBalanced m.memory_pools
      → AllBalanced (step scale m x).memory_pools
  unfolding step release create_pool destroy_pool reserve_memory release_memory optimize
      update_stats
  step-IsBalanced m (allocates instance_id size id block_id now) a =
      allocate-IsBalanced m instance_id size id block_id now a
  step-IsBalanced m (releases id now) a =
      release_found-IsBalanced m id now (lookup id m.allocations) a
  step-IsBalanced m (creates id size now) a =
      create_found-IsBalanced m id size now (lookup id m.memory_pools) a
  step-IsBalanced m (destroys id now) a =
      destroy_found-IsBalanced m id now (lookup id m.memory_pools) a
  step-IsBalanced m (reserves size now) a = if_cases Good _ _ _ (λ _. a) (λ _. a)
  step-IsBalanced m (releases_reserved size now) a = a
  step-IsBalanced m (optimizes now) a = defragment_each-IsBalanced m.memory_pools a

  -- In a manager whose pools balance (as in a new one, which has none), after any history of calls
  -- every pool still balances: what it counts as used is the sum of the sizes of its blocks in use,
  -- and used and available memory add up to its size.
  pub run-IsBalanced :
      (m : MemoryManager Share) (xs : List Call)
      → AllBalanced m.memory_pools
      → AllBalanced (run scale m xs).memory_pools
  unfolding run
  run-IsBalanced m [] a = a
  run-IsBalanced m (x ∷ xs) a = run-IsBalanced (step scale m x) xs (step-IsBalanced m x a)
