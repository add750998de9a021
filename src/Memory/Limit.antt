-- ===== src/Memory/Limit.antt =====
-- What is granted stays within the share of the memory that may be used.
use net_llm.Prelude.{
  ℕ, String, false, Option, none, some, ◌≡◌, refl, sym, subst, if_cases, if◌then◌else◌, arith,
  Bool-cases, inl, inr,
}
use net_llm.Prelude.Int.{ℤ, pos, ◌+ℤ◌, ◌-ℤ◌, ltb_ℤ, ◌≤ℤ◌, ◌<ℤ◌, parts-add, parts-sub, ext_ℤ}
use net_llm.Prelude.Dict.{lookup, lookup-insert_self}
use net_llm.Memory.State.{
  MemoryManager, MemoryAllocation, Error, insufficient_memory, Result, ok, err,
}
use net_llm.Memory.Methods.{get_available_memory, update_stats, allocate, reserve_memory}
use net_llm.Memory.Size.{IsEnoughDrawn, draw_from-IsEnough, allocation_of-IsEnough}

-- The memory that is used or reserved.
abbrev pub taken : {Share : Type 0} → MemoryManager Share → ℤ
taken m = m.used_memory +ℤ m.reserved_memory

clamped : (z s : ℤ) → ltb_ℤ (if ltb_ℤ z (pos 0) then pos 0 else z) s ≡ false → pos 0 <ℤ s → s ≤ℤ z
clamped z s fits positive = elim (Bool-cases (ltb_ℤ z (pos 0))) [
  | inl below ↦
      let none_left : ltb_ℤ (pos 0) s ≡ false =
        subst (λ c. ltb_ℤ (if c then pos 0 else z) s ≡ false) below fits in
      absurd (ground (arith, none_left))
  | inr above ↦
      let left : ltb_ℤ z s ≡ false =
        subst (λ c. ltb_ℤ (if c then pos 0 else z) s ≡ false) above fits in
      ground (arith, left)
]

module _ {Share : Type 0} (scale : ℤ → Share → ℤ) where
  abbrev pub limit : MemoryManager Share → ℤ
  limit m = scale m.total_memory m.config.max_memory_usage

  -- A request for more than nothing that fits in the available memory fits under the limit.
  available_fits :
      (m : MemoryManager Share) (size : ℤ)
      → ltb_ℤ (get_available_memory scale m) size ≡ false
      → pos 0 <ℤ size
      → taken m +ℤ size ≤ℤ limit m
  unfolding get_available_memory
  available_fits m size fits positive =
      let free = limit m -ℤ m.used_memory -ℤ m.reserved_memory in
      let e1 = parts-sub (limit m) m.used_memory in
      let e2 = parts-sub (limit m -ℤ m.used_memory) m.reserved_memory in
      let e3 = parts-add m.used_memory m.reserved_memory in
      let e4 = parts-add (taken m) size in
      let within : size ≤ℤ free = clamped free size fits positive in
      omega (arith, e1, e2, e3, e4, within)

  -- How a call of `allocate` may end.
  abbrev pub Outcome :
      MemoryManager Share → ℤ → String → MemoryManager Share × Result MemoryAllocation → Type 0
  Outcome m size id (m', err e) =
      (m' ≡ m)
      × (e ≡ insufficient_memory size (get_available_memory scale m))
      × (get_available_memory scale m <ℤ size)
  Outcome m size id (m', ok a) =
      (m'.used_memory ≡ m.used_memory +ℤ size)
      × (m'.reserved_memory ≡ m.reserved_memory)
      × (lookup id m'.allocations ≡ some a)
      × (size ≤ℤ a.size)
      × (pos 0 <ℤ size → taken m' ≤ℤ limit m')

  -- What is taken after the memory grew by `size`, either way.
  grown : (u r s : ℤ) → (u +ℤ s) +ℤ r ≡ (u +ℤ r) +ℤ s
  grown u r s =
      ext_ℤ _ _
        (omega (arith, parts-add u s, parts-add (u +ℤ s) r, parts-add u r, parts-add (u +ℤ r) s))

  -- A call of Allocate fails, and changes nothing, only where the size exceeds the available memory,
  -- which the error names; or it succeeds, the used memory grows by the size, the reserved memory
  -- stays, the allocation is found under its ID and is at least as large as asked, and, where the size
  -- is positive, used and reserved memory together are within the share of the memory that may be used.
  pub allocate-Outcome :
      (m : MemoryManager Share) (instance_id : String) (size : ℤ) (id block_id : String) (now : ℕ)
      → Outcome m size id (allocate scale m instance_id size id block_id now)
  unfolding allocate update_stats
  allocate-Outcome m instance_id size id block_id now =
      if_cases (Outcome m size id) (ltb_ℤ (get_available_memory scale m) size) _ _
        (λ more. (refl, refl, ground (arith, more)))
        (λ fits. (
          refl,
          refl,
          lookup-insert_self id _ m.allocations,
          allocation_of-IsEnough scale m instance_id size id now _ (
              if_cases (IsEnoughDrawn size) m.config.enable_pooling _ none
                (λ _. draw_from-IsEnough m.memory_pools size block_id now) (λ _. tt)),
          λ positive.
              subst (λ t. t ≤ℤ limit m) (sym (grown m.used_memory m.reserved_memory size))
                (available_fits m size fits positive),
        ))

  abbrev pub ReserveOutcome : MemoryManager Share → ℤ → MemoryManager Share × Option Error → Type 0
  ReserveOutcome m size (m', some e) =
      (m' ≡ m)
      × (e ≡ insufficient_memory size (get_available_memory scale m))
      × (get_available_memory scale m <ℤ size)
  ReserveOutcome m size (m', none) =
      (m'.used_memory ≡ m.used_memory)
      × (m'.reserved_memory ≡ m.reserved_memory +ℤ size)
      × (pos 0 <ℤ size → taken m' ≤ℤ limit m')

  grown_reserve : (u r s : ℤ) → u +ℤ (r +ℤ s) ≡ (u +ℤ r) +ℤ s
  grown_reserve u r s =
      ext_ℤ _ _
        (omega (arith, parts-add r s, parts-add u (r +ℤ s), parts-add u r, parts-add (u +ℤ r) s))

  -- A call of ReserveMemory fails, and changes nothing, only where the size exceeds the available
  -- memory; or it succeeds, the reserved memory grows by the size, the used memory stays, and, where
  -- the size is positive, both together are within the share of the memory that may be used.
  pub reserve_memory-Outcome :
      (m : MemoryManager Share) (size : ℤ) (now : ℕ)
      → ReserveOutcome m size (reserve_memory scale m size now)
  unfolding reserve_memory update_stats
  reserve_memory-Outcome m size now =
      if_cases (ReserveOutcome m size) (ltb_ℤ (get_available_memory scale m) size) _ _
        (λ more. (refl, refl, ground (arith, more)))
        (λ fits. (
          refl,
          refl,
          λ positive.
              subst (λ t. t ≤ℤ limit m) (sym (grown_reserve m.used_memory m.reserved_memory size))
                (available_fits m size fits positive),
        ))
