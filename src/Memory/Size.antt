-- ===== src/Memory/Size.antt =====
-- What is allocated is at least as large as what was asked for.
use net_llm.Prelude.{
  ℕ, String, Bool, true, false, not, ◌&&◌, Option, none, some, List, [], ◌∷◌, ◌≡◌, if_cases, arith,
}
use net_llm.Prelude.Int.{ℤ, ◌≤ℤ◌, leb_ℤ}
use net_llm.Prelude.Dict.{Dict}
use net_llm.Memory.State.{MemoryBlock, MemoryPool, MemoryManager}
use net_llm.Memory.Methods.{
  first_block, claim_block, or_create, find_or_create_block, draw_found, take_from, drawn_here,
  draw_from, allocation_of,
}

-- The size that a search found is large enough.
abbrev pub IsEnough : {A : Type 0} → ℤ → Option (A × ℤ) → Type 0
IsEnough size none = Unit
IsEnough size (some (a, found)) = size ≤ℤ found

at_least : (u : Bool) (a b : ℤ) → (not u && leb_ℤ a b) ≡ true → a ≤ℤ b
at_least true a b e = absurd (ground (arith, e))
at_least false a b e = ground (arith, e)

first_block-IsEnough :
    (size : ℤ) (b : MemoryBlock) (o : Option (List MemoryBlock × ℤ))
    → IsEnough size o
    → IsEnough size (first_block b o)
first_block-IsEnough size b none h = tt
first_block-IsEnough size b (some (bs, found)) h = h

claim_block-IsEnough :
    (size : ℤ) (now : ℕ) (bs : List MemoryBlock) → IsEnough size (claim_block size now bs)
unfolding claim_block
claim_block-IsEnough size now [] = tt
claim_block-IsEnough size now (b ∷ bs) =
    if_cases (IsEnough size) (not b.in_use && leb_ℤ size b.size) _ _
      (λ free. at_least b.in_use size b.size free)
      (λ _.
        first_block-IsEnough size b (claim_block size now bs) (claim_block-IsEnough size now bs))

or_create-IsEnough :
    (pool : MemoryPool) (size : ℤ) (id : String) (now : ℕ) (o : Option (List MemoryBlock × ℤ))
    → IsEnough size o
    → IsEnough size (or_create pool size id now o)
unfolding or_create
or_create-IsEnough pool size id now (some found) h = h
or_create-IsEnough pool size id now none h =
    if_cases (IsEnough size) (leb_ℤ size pool.available) _ _ (λ _. omega arith) (λ _. tt)

draw_found-IsEnough :
    (size : ℤ) (pool : MemoryPool) (o : Option (List MemoryBlock × ℤ))
    → IsEnough size o
    → IsEnough size (draw_found pool o)
draw_found-IsEnough size pool none h = tt
draw_found-IsEnough size pool (some (bs, found)) h = h

take_from-IsEnough :
    (pool : MemoryPool) (size : ℤ) (id : String) (now : ℕ)
    → IsEnough size (take_from pool size id now)
unfolding take_from find_or_create_block
take_from-IsEnough pool size id now =
    if_cases (IsEnough size) (leb_ℤ size pool.available) _ _
      (λ _. draw_found-IsEnough size pool _ (
        or_create-IsEnough pool size id now (claim_block size now pool.blocks)
          (claim_block-IsEnough size now pool.blocks)))
      (λ _. tt)

abbrev pub IsEnoughDrawn : ℤ → Option (Dict MemoryPool × String × ℤ) → Type 0
IsEnoughDrawn size none = Unit
IsEnoughDrawn size (some (pools, pool_id, found)) = size ≤ℤ found

drawn_here-IsEnough :
    (size : ℤ) (k : String) (pool : MemoryPool) (pools : Dict MemoryPool)
    (o : Option (MemoryPool × ℤ)) (rest : Option (Dict MemoryPool × String × ℤ))
    → IsEnough size o
    → IsEnoughDrawn size rest
    → IsEnoughDrawn size (drawn_here k pool pools o rest)
drawn_here-IsEnough size k pool pools (some (pool', found)) rest h r = h
drawn_here-IsEnough size k pool pools none none h r = tt
drawn_here-IsEnough size k pool pools none (some (pools', id, found)) h r = r

pub draw_from-IsEnough :
    (pools : Dict MemoryPool) (size : ℤ) (id : String) (now : ℕ)
    → IsEnoughDrawn size (draw_from pools size id now)
unfolding draw_from
draw_from-IsEnough [] size id now = tt
draw_from-IsEnough ((k, pool) ∷ pools) size id now =
    drawn_here-IsEnough size k pool pools _ _ (take_from-IsEnough pool size id now)
      (draw_from-IsEnough pools size id now)

module _ {Share : Type 0} (scale : ℤ → Share → ℤ) where
  pub allocation_of-IsEnough :
      (m : MemoryManager Share) (instance_id : String) (size : ℤ) (id : String) (now : ℕ)
      (o : Option (Dict MemoryPool × String × ℤ))
      → IsEnoughDrawn size o
      → size ≤ℤ (allocation_of scale m instance_id size id now o).1.size
  unfolding allocation_of
  allocation_of-IsEnough m instance_id size id now none h = omega arith
  allocation_of-IsEnough m instance_id size id now (some (pools, pool_id, found)) h = h
